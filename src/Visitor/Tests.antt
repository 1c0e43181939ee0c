-- ===== src/Visitor/Tests.antt =====
-- Runs of the visitors and of is_compatible, and uses of the theorems on them.
use vsg.Base.{◌≡◌, refl, Bool, true, false, some, ◌↔◌}
use vsg.Visitor.{
  NodeClass, VulkanClass, Class, object, data_class, value, array, array2d, node, vulkan,
  string_value, ubyte_array2d, float_array, commands, group, command, matrix_transform,
  command_buffer, bind_vertex_buffers,
}
use vsg.Visitor.Next.{next}
use vsg.Visitor.ConstNext.{const_next}
use vsg.Visitor.Bases.{base}
use vsg.Visitor.Number.{number}
use vsg.Visitor.Dispatch.{visit, Nearest, visit_lem}
use vsg.Visitor.Types.{is_compatible, overrides_is_compatible, IsA, is_compatible_lem, next-IsA}

-- A visitor of nodes and commands.
abbrev overrides : Class → Bool
overrides (node NodeClass.node) = true
overrides (vulkan VulkanClass.command) = true
overrides (node group) = true
overrides _ = false

visit_transform : visit next 5 overrides (node matrix_transform) ≡ node group
unfolding visit next
visit_transform = refl

visit_buffer : visit const_next 5 overrides (vulkan command_buffer) ≡ object
unfolding visit const_next
visit_buffer = refl

visit_bind : visit next 5 overrides (vulkan bind_vertex_buffers) ≡ vulkan command
unfolding visit next
visit_bind = refl

cast_string : is_compatible 5 (value string_value) (value string_value) ≡ false
unfolding is_compatible overrides_is_compatible base number
cast_string = refl

cast_array : is_compatible 5 (array float_array) (array float_array) ≡ true
unfolding is_compatible overrides_is_compatible base number
cast_array = refl

cast_array2d : is_compatible 5 (array2d ubyte_array2d) data_class ≡ true
unfolding is_compatible overrides_is_compatible base number
cast_array2d = refl

visit_lem_example :
    Nearest overrides (visit next 5 overrides (node matrix_transform)) (node matrix_transform)
    × Nearest overrides
        (visit const_next 5 overrides (node matrix_transform))
        (node matrix_transform)
visit_lem_example = visit_lem overrides (node matrix_transform) refl

-- A Commands object is met as a Node, though Commands is a Command and apply(Command&) is overridden.
visit_commands : visit next 5 overrides (node commands) ≡ node NodeClass.node
unfolding visit next
visit_commands = refl

const_visit_commands : visit const_next 5 overrides (node commands) ≡ node NodeClass.node
unfolding visit const_next
const_visit_commands = refl

is_compatible_lem_example : (is_compatible 5 (value string_value) (value string_value) ≡ true) ↔ (
    IsA (value string_value) (value string_value)
    × (overrides_is_compatible (value string_value) ≡ true))
is_compatible_lem_example = is_compatible_lem (value string_value) (value string_value)

next-IsA_example :
    (next (node commands) ≡ some (node NodeClass.node) → IsA (node NodeClass.node) (node commands))
    × (const_next (node commands) ≡ some (node NodeClass.node)
        → IsA (node NodeClass.node) (node commands))
next-IsA_example = next-IsA (node commands) (node NodeClass.node)

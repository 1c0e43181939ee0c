-- ===== src/Visitor/Dispatch.antt =====
-- What accept() of a class leads to: the apply() of the class, and by the default bodies on to the
-- next apply() that a visitor overrides.
use vsg.Base.{
  ℕ, zero, suc, ◌≡◌, refl, ap, Bool, true, false, not, Option, none, some, if◌then◌else◌, inl, inr,
  Bool-cases,
}
use vsg.Visitor.{
  Class, object, objects, external, data_class, frame_stamp, value, array, array2d, array3d, node,
  vulkan, event, viewer, ValueClass, ArrayClass, Array2dClass, Array3dClass, NodeClass, VulkanClass,
  EventClass, ViewerClass, commands,
}
use vsg.Visitor.Next.{
  next, next_value, next_array, next_array2d, next_array3d, next_node, next_vulkan, next_event,
  next_viewer,
}
use vsg.Visitor.ConstNext.{
  const_next, const_next_value, const_next_array, const_next_array2d, const_next_array3d,
  const_next_node, const_next_vulkan, const_next_event, const_next_viewer,
}
use vsg.Visitor.Bases.{base, base_node, base_vulkan, base_event, base_viewer}

abbrev pub onward : {A : Type 0} → A → (Class → A) → Option Class → A
onward stay go none = stay
onward stay go (some c) = go c

-- The class whose apply() handles an object of class `c`, when `overridden` are those that the
-- visitor defines itself, on fuel for the casts.
unfoldable pub visit : (Class → Option Class) → ℕ → (Class → Bool) → Class → Class
visit calls zero overridden c = c
visit calls (suc fuel) overridden c =
    let further = onward c (visit calls fuel overridden) (calls c) in
    if overridden c then c else further

-- The specification: the nearest class that is overridden, from the class itself up its bases.
pub data Nearest (overridden : Class → Bool) (d : Class) : Class → Type 0 where
  own : (c : Class) → overridden c ≡ true → d ≡ c → Nearest overridden d c
  inherited :
      (c b : Class)
      → overridden c ≡ false
      → base c ≡ some b
      → Nearest overridden d b
      → Nearest overridden d c
  nothing : (c : Class) → overridden c ≡ false → base c ≡ none → d ≡ c → Nearest overridden d c

abbrev pub is_commands : Class → Bool
is_commands (node commands) = true
is_commands _ = false

-- The bases end within as many steps.
unfoldable pub ends : ℕ → Class → Bool
ends zero c = false
ends (suc n) c = onward true (ends n) (base c)

ends_node : (c : NodeClass) → ends 5 (node c) ≡ true
unfolding ends base
ends_node NodeClass.node = refl
ends_node _ = refl

ends_vulkan : (c : VulkanClass) → ends 5 (vulkan c) ≡ true
unfolding ends base
ends_vulkan VulkanClass.command = refl
ends_vulkan _ = refl

ends_event : (c : EventClass) → ends 5 (event c) ≡ true
unfolding ends base
ends_event EventClass.uievent = refl
ends_event _ = refl

ends_viewer : (c : ViewerClass) → ends 5 (viewer c) ≡ true
unfolding ends base
ends_viewer ViewerClass.command_graph = refl
ends_viewer _ = refl

pub ends_all : (c : Class) → ends 5 c ≡ true
unfolding ends base
ends_all object = refl
ends_all objects = refl
ends_all external = refl
ends_all data_class = refl
ends_all frame_stamp = refl
ends_all (value c) = refl
ends_all (array c) = refl
ends_all (array2d c) = refl
ends_all (array3d c) = refl
ends_all (node c) = ends_node c
ends_all (vulkan c) = ends_vulkan c
ends_all (event c) = ends_event c
ends_all (viewer c) = ends_viewer c

-- No class has Commands as its base.
base_node-other : (c : NodeClass) → is_commands (base_node c) ≡ false
base_node-other NodeClass.node = refl
base_node-other _ = refl

base_vulkan-other : (c : VulkanClass) → is_commands (base_vulkan c) ≡ false
base_vulkan-other VulkanClass.command = refl
base_vulkan-other _ = refl

base_event-other : (c : EventClass) → is_commands (base_event c) ≡ false
base_event-other EventClass.uievent = refl
base_event-other _ = refl

base_viewer-other : (c : ViewerClass) → is_commands (base_viewer c) ≡ false
base_viewer-other ViewerClass.command_graph = refl
base_viewer-other _ = refl

base-other : (c : Class) → onward true (λ b. not (is_commands b)) (base c) ≡ true
unfolding base
base-other object = refl
base-other objects = refl
base-other external = refl
base-other data_class = refl
base-other frame_stamp = refl
base-other (value c) = refl
base-other (array c) = refl
base-other (array2d c) = refl
base-other (array3d c) = refl
base-other (node c) = ap not (base_node-other c)
base-other (vulkan c) = ap not (base_vulkan-other c)
base-other (event c) = ap not (base_event-other c)
base-other (viewer c) = ap not (base_viewer-other c)

not-true : (b : Bool) → not b ≡ true → b ≡ false
not-true false h = refl
not-true true h = cc h

module _ (calls : Class → Option Class)
    (agrees : (c : Class) → is_commands c ≡ false → calls c ≡ base c)
    (overridden : Class → Bool) where
  visit-Nearest :
      (fuel : ℕ) (c : Class)
      → is_commands c ≡ false
      → ends fuel c ≡ true
      → Nearest overridden (visit calls fuel overridden c) c
  unfolding visit ends
  visit-Nearest zero c h e = cc e
  visit-Nearest (suc fuel) c h e = elim (Bool-cases (overridden c)) [
    | inl o ↦ own c o (rw o refl)
    | inr o ↦ on_base fuel c h o (base c) refl (visit-Nearest fuel) e
  ]
    where
      on_base :
          (fuel : ℕ) (c : Class)
          → is_commands c ≡ false
          → overridden c ≡ false
          → (b : Option Class) → base c ≡ b
          → ((d : Class)
              → is_commands d ≡ false
              → ends fuel d ≡ true
              → Nearest overridden (visit calls fuel overridden d) d)
          → onward true (ends fuel) (base c) ≡ true
          → Nearest overridden (visit calls (suc fuel) overridden c) c
      on_base fuel c h o none e ih l = nothing c o e (rw (o, agrees c h, e) refl)
      on_base fuel c h o (some b) e ih l =
          rw (o, agrees c h, e)
            (inherited c b o e
              (ih b (not-true (is_commands b) (rw e at (base-other c))) (rw e at l)))

-- The casts go to the base classes, but for Commands.
next_value-base : (c : ValueClass) → next_value c ≡ data_class
next_value-base ValueClass.string_value = refl
next_value-base _ = refl

next_array-base : (c : ArrayClass) → next_array c ≡ data_class
next_array-base ArrayClass.ubyte_array = refl
next_array-base _ = refl

next_array2d-base : (c : Array2dClass) → next_array2d c ≡ data_class
next_array2d-base Array2dClass.ubyte_array2d = refl
next_array2d-base _ = refl

next_array3d-base : (c : Array3dClass) → next_array3d c ≡ data_class
next_array3d-base Array3dClass.ubyte_array3d = refl
next_array3d-base _ = refl

next_vulkan-base : (c : VulkanClass) → next_vulkan c ≡ base_vulkan c
next_vulkan-base VulkanClass.command = refl
next_vulkan-base _ = refl

next_event-base : (c : EventClass) → next_event c ≡ base_event c
next_event-base EventClass.uievent = refl
next_event-base _ = refl

next_viewer-base : (c : ViewerClass) → next_viewer c ≡ base_viewer c
next_viewer-base ViewerClass.command_graph = refl
next_viewer-base _ = refl

next_node-base : (c : NodeClass) → is_commands (node c) ≡ false → next_node c ≡ base_node c
next_node-base NodeClass.commands h = cc h
next_node-base _ h = refl

pub next-base : (c : Class) → is_commands c ≡ false → next c ≡ base c
unfolding next base
next-base object h = refl
next-base objects h = refl
next-base external h = refl
next-base data_class h = refl
next-base frame_stamp h = refl
next-base (value c) h = ap some (next_value-base c)
next-base (array c) h = ap some (next_array-base c)
next-base (array2d c) h = ap some (next_array2d-base c)
next-base (array3d c) h = ap some (next_array3d-base c)
next-base (vulkan c) h = ap some (next_vulkan-base c)
next-base (event c) h = ap some (next_event-base c)
next-base (viewer c) h = ap some (next_viewer-base c)
next-base (node c) h = ap some (next_node-base c h)

const_next_value-base : (c : ValueClass) → const_next_value c ≡ data_class
const_next_value-base ValueClass.string_value = refl
const_next_value-base _ = refl

const_next_array-base : (c : ArrayClass) → const_next_array c ≡ data_class
const_next_array-base ArrayClass.ubyte_array = refl
const_next_array-base _ = refl

const_next_array2d-base : (c : Array2dClass) → const_next_array2d c ≡ data_class
const_next_array2d-base Array2dClass.ubyte_array2d = refl
const_next_array2d-base _ = refl

const_next_array3d-base : (c : Array3dClass) → const_next_array3d c ≡ data_class
const_next_array3d-base Array3dClass.ubyte_array3d = refl
const_next_array3d-base _ = refl

const_next_vulkan-base : (c : VulkanClass) → const_next_vulkan c ≡ base_vulkan c
const_next_vulkan-base VulkanClass.command = refl
const_next_vulkan-base _ = refl

const_next_event-base : (c : EventClass) → const_next_event c ≡ base_event c
const_next_event-base EventClass.uievent = refl
const_next_event-base _ = refl

const_next_viewer-base : (c : ViewerClass) → const_next_viewer c ≡ base_viewer c
const_next_viewer-base ViewerClass.command_graph = refl
const_next_viewer-base _ = refl

const_next_node-base :
    (c : NodeClass) → is_commands (node c) ≡ false → const_next_node c ≡ base_node c
const_next_node-base NodeClass.commands h = cc h
const_next_node-base _ h = refl

pub const_next-base : (c : Class) → is_commands c ≡ false → const_next c ≡ base c
unfolding const_next base
const_next-base object h = refl
const_next-base objects h = refl
const_next-base external h = refl
const_next-base data_class h = refl
const_next-base frame_stamp h = refl
const_next-base (value c) h = ap some (const_next_value-base c)
const_next-base (array c) h = ap some (const_next_array-base c)
const_next-base (array2d c) h = ap some (const_next_array2d-base c)
const_next-base (array3d c) h = ap some (const_next_array3d-base c)
const_next-base (vulkan c) h = ap some (const_next_vulkan-base c)
const_next-base (event c) h = ap some (const_next_event-base c)
const_next-base (viewer c) h = ap some (const_next_viewer-base c)
const_next-base (node c) h = ap some (const_next_node-base c h)

-- Both visitors lead every class but Commands to the nearest overridden class above it.
pub visit_lem :
    (overridden : Class → Bool) (c : Class)
    → is_commands c ≡ false
    → Nearest overridden (visit next 5 overridden c) c
      × Nearest overridden (visit const_next 5 overridden c) c
visit_lem overridden c h = (
  visit-Nearest next next-base overridden 5 c h (ends_all c),
  visit-Nearest const_next const_next-base overridden 5 c h (ends_all c),
)

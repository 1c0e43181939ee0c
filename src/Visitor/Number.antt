-- ===== src/Visitor/Number.antt =====
-- The identity of the classes' types, typeid in the source: a number for each class, by the order of
-- the sections.
use vsg.Base.{ℕ, suc, zero, ◌≡◌, refl, sym, ap, Option, none, some, List, [], ◌∷◌}
use vsg.Visitor.{
  Class, ValueClass, ArrayClass, Array2dClass, Array3dClass, NodeClass, VulkanClass, EventClass,
  ViewerClass, array, array2d, array3d, bind_compute_pipeline, bind_descriptor_set,
  bind_descriptor_sets, bind_graphics_pipeline, bind_index_buffer, bind_vertex_buffers,
  block128_array, block128_array2d, block128_array3d, block64_array, block64_array2d,
  block64_array3d, bool_value, button_press_event, button_release_event, bvec2_array, bvec2_array2d,
  bvec3_array, bvec3_array2d, bvec4_array, bvec4_array2d, close_window_event, color_blend_state,
  command_buffer, commands, compute_pipeline, configure_window_event, cull_group, cull_node,
  data_class, depth_stencil_state, descriptor, descriptor_set, dmat4_array, double_array,
  double_array2d, double_array3d, double_value, draw, draw_indexed, dvec2_array, dvec2_array2d,
  dvec2_array3d, dvec3_array, dvec3_array2d, dvec3_array3d, dvec4_array, dvec4_array2d,
  dvec4_array3d, event, expose_window_event, external, float_array, float_array2d, float_array3d,
  float_value, frame_event, frame_stamp, geometry, graphics_pipeline, graphics_pipeline_state,
  group, input_assembly_state, int_value, ivec2_array, ivec2_array2d, ivec3_array, ivec3_array2d,
  ivec4_array, ivec4_array2d, key_event, key_press_event, key_release_event, lod, mat4_array,
  matrix_transform, move_event, multisample_state, node, object, objects, paged_lod, pointer_event,
  quad_group, rasterization_state, render_graph, render_pass, resource_hints, scroll_wheel_event,
  shader_stage, state_command, state_group, svec2_array, svec2_array2d, svec3_array, svec3_array2d,
  svec4_array, svec4_array2d, terminate_event, touch_down_event, touch_event, touch_move_event,
  touch_up_event, ubvec2_array, ubvec2_array2d, ubvec2_array3d, ubvec3_array, ubvec3_array2d,
  ubvec3_array3d, ubvec4_array, ubvec4_array2d, ubvec4_array3d, uint_array, uint_array2d,
  uint_array3d, uint_value, uivec2_array, uivec2_array2d, uivec3_array, uivec3_array2d,
  uivec4_array, uivec4_array2d, ushort_array, ushort_array2d, ushort_array3d, usvec2_array,
  usvec2_array2d, usvec3_array, usvec3_array2d, usvec4_array, usvec4_array2d, value, vec2_array,
  vec2_array2d, vec2_array3d, vec3_array, vec3_array2d, vec3_array3d, vec4_array, vec4_array2d,
  vec4_array3d, vertex_index_draw, vertex_input_state, viewer, viewport_state, vulkan, window_event,
}

abbrev pub number_value : ValueClass → ℕ
number_value ValueClass.string_value = 5
number_value bool_value = 6
number_value int_value = 7
number_value uint_value = 8
number_value float_value = 9
number_value double_value = 10

abbrev pub number_array : ArrayClass → ℕ
number_array ArrayClass.ubyte_array = 11
number_array ushort_array = 12
number_array uint_array = 13
number_array float_array = 14
number_array double_array = 15
number_array vec2_array = 16
number_array vec3_array = 17
number_array vec4_array = 18
number_array dvec2_array = 19
number_array dvec3_array = 20
number_array dvec4_array = 21
number_array bvec2_array = 22
number_array bvec3_array = 23
number_array bvec4_array = 24
number_array svec2_array = 25
number_array svec3_array = 26
number_array svec4_array = 27
number_array ivec2_array = 28
number_array ivec3_array = 29
number_array ivec4_array = 30
number_array ubvec2_array = 31
number_array ubvec3_array = 32
number_array ubvec4_array = 33
number_array usvec2_array = 34
number_array usvec3_array = 35
number_array usvec4_array = 36
number_array uivec2_array = 37
number_array uivec3_array = 38
number_array uivec4_array = 39
number_array mat4_array = 40
number_array dmat4_array = 41
number_array block64_array = 42
number_array block128_array = 43

abbrev pub number_array2d : Array2dClass → ℕ
number_array2d Array2dClass.ubyte_array2d = 44
number_array2d ushort_array2d = 45
number_array2d uint_array2d = 46
number_array2d float_array2d = 47
number_array2d double_array2d = 48
number_array2d vec2_array2d = 49
number_array2d vec3_array2d = 50
number_array2d vec4_array2d = 51
number_array2d dvec2_array2d = 52
number_array2d dvec3_array2d = 53
number_array2d dvec4_array2d = 54
number_array2d bvec2_array2d = 55
number_array2d bvec3_array2d = 56
number_array2d bvec4_array2d = 57
number_array2d svec2_array2d = 58
number_array2d svec3_array2d = 59
number_array2d svec4_array2d = 60
number_array2d ivec2_array2d = 61
number_array2d ivec3_array2d = 62
number_array2d ivec4_array2d = 63
number_array2d ubvec2_array2d = 64
number_array2d ubvec3_array2d = 65
number_array2d ubvec4_array2d = 66
number_array2d usvec2_array2d = 67
number_array2d usvec3_array2d = 68
number_array2d usvec4_array2d = 69
number_array2d uivec2_array2d = 70
number_array2d uivec3_array2d = 71
number_array2d uivec4_array2d = 72
number_array2d block64_array2d = 73
number_array2d block128_array2d = 74

abbrev pub number_array3d : Array3dClass → ℕ
number_array3d Array3dClass.ubyte_array3d = 75
number_array3d ushort_array3d = 76
number_array3d uint_array3d = 77
number_array3d float_array3d = 78
number_array3d double_array3d = 79
number_array3d vec2_array3d = 80
number_array3d vec3_array3d = 81
number_array3d vec4_array3d = 82
number_array3d dvec2_array3d = 83
number_array3d dvec3_array3d = 84
number_array3d dvec4_array3d = 85
number_array3d ubvec2_array3d = 86
number_array3d ubvec3_array3d = 87
number_array3d ubvec4_array3d = 88
number_array3d block64_array3d = 89
number_array3d block128_array3d = 90

abbrev pub number_node : NodeClass → ℕ
number_node NodeClass.node = 91
number_node commands = 92
number_node group = 93
number_node quad_group = 94
number_node lod = 95
number_node paged_lod = 96
number_node state_group = 97
number_node cull_group = 98
number_node cull_node = 99
number_node matrix_transform = 100
number_node geometry = 101
number_node vertex_index_draw = 102

abbrev pub number_vulkan : VulkanClass → ℕ
number_vulkan VulkanClass.command = 103
number_vulkan state_command = 104
number_vulkan command_buffer = 105
number_vulkan render_pass = 106
number_vulkan bind_descriptor_set = 107
number_vulkan bind_descriptor_sets = 108
number_vulkan descriptor = 109
number_vulkan descriptor_set = 110
number_vulkan bind_vertex_buffers = 111
number_vulkan bind_index_buffer = 112
number_vulkan bind_compute_pipeline = 113
number_vulkan bind_graphics_pipeline = 114
number_vulkan graphics_pipeline = 115
number_vulkan compute_pipeline = 116
number_vulkan graphics_pipeline_state = 117
number_vulkan shader_stage = 118
number_vulkan vertex_input_state = 119
number_vulkan input_assembly_state = 120
number_vulkan viewport_state = 121
number_vulkan rasterization_state = 122
number_vulkan multisample_state = 123
number_vulkan depth_stencil_state = 124
number_vulkan color_blend_state = 125
number_vulkan resource_hints = 126
number_vulkan draw = 127
number_vulkan draw_indexed = 128

abbrev pub number_event : EventClass → ℕ
number_event EventClass.uievent = 129
number_event window_event = 130
number_event expose_window_event = 131
number_event configure_window_event = 132
number_event close_window_event = 133
number_event key_event = 134
number_event key_press_event = 135
number_event key_release_event = 136
number_event pointer_event = 137
number_event button_press_event = 138
number_event button_release_event = 139
number_event move_event = 140
number_event touch_event = 141
number_event touch_down_event = 142
number_event touch_up_event = 143
number_event touch_move_event = 144
number_event scroll_wheel_event = 145
number_event terminate_event = 146
number_event frame_event = 147

abbrev pub number_viewer : ViewerClass → ℕ
number_viewer ViewerClass.command_graph = 148
number_viewer render_graph = 149

-- The type_info of a class.
unfoldable pub number : Class → ℕ
number object = 0
number objects = 1
number external = 2
number data_class = 3
number frame_stamp = 4
number (value c) = number_value c
number (array c) = number_array c
number (array2d c) = number_array2d c
number (array3d c) = number_array3d c
number (node c) = number_node c
number (vulkan c) = number_vulkan c
number (event c) = number_event c
number (viewer c) = number_viewer c

abbrev at : List Class → ℕ → Option Class
at [] n = none
at (c ∷ cs) zero = some c
at (c ∷ cs) (suc n) = at cs n

abbrev classes : List Class
classes =
    object
    ∷ objects
    ∷ external
    ∷ data_class
    ∷ frame_stamp
    ∷ value ValueClass.string_value
    ∷ value ValueClass.bool_value
    ∷ value ValueClass.int_value
    ∷ value ValueClass.uint_value
    ∷ value ValueClass.float_value
    ∷ value ValueClass.double_value
    ∷ array ArrayClass.ubyte_array
    ∷ array ArrayClass.ushort_array
    ∷ array ArrayClass.uint_array
    ∷ array ArrayClass.float_array
    ∷ array ArrayClass.double_array
    ∷ array ArrayClass.vec2_array
    ∷ array ArrayClass.vec3_array
    ∷ array ArrayClass.vec4_array
    ∷ array ArrayClass.dvec2_array
    ∷ array ArrayClass.dvec3_array
    ∷ array ArrayClass.dvec4_array
    ∷ array ArrayClass.bvec2_array
    ∷ array ArrayClass.bvec3_array
    ∷ array ArrayClass.bvec4_array
    ∷ array ArrayClass.svec2_array
    ∷ array ArrayClass.svec3_array
    ∷ array ArrayClass.svec4_array
    ∷ array ArrayClass.ivec2_array
    ∷ array ArrayClass.ivec3_array
    ∷ array ArrayClass.ivec4_array
    ∷ array ArrayClass.ubvec2_array
    ∷ array ArrayClass.ubvec3_array
    ∷ array ArrayClass.ubvec4_array
    ∷ array ArrayClass.usvec2_array
    ∷ array ArrayClass.usvec3_array
    ∷ array ArrayClass.usvec4_array
    ∷ array ArrayClass.uivec2_array
    ∷ array ArrayClass.uivec3_array
    ∷ array ArrayClass.uivec4_array
    ∷ array ArrayClass.mat4_array
    ∷ array ArrayClass.dmat4_array
    ∷ array ArrayClass.block64_array
    ∷ array ArrayClass.block128_array
    ∷ array2d Array2dClass.ubyte_array2d
    ∷ array2d Array2dClass.ushort_array2d
    ∷ array2d Array2dClass.uint_array2d
    ∷ array2d Array2dClass.float_array2d
    ∷ array2d Array2dClass.double_array2d
    ∷ array2d Array2dClass.vec2_array2d
    ∷ array2d Array2dClass.vec3_array2d
    ∷ array2d Array2dClass.vec4_array2d
    ∷ array2d Array2dClass.dvec2_array2d
    ∷ array2d Array2dClass.dvec3_array2d
    ∷ array2d Array2dClass.dvec4_array2d
    ∷ array2d Array2dClass.bvec2_array2d
    ∷ array2d Array2dClass.bvec3_array2d
    ∷ array2d Array2dClass.bvec4_array2d
    ∷ array2d Array2dClass.svec2_array2d
    ∷ array2d Array2dClass.svec3_array2d
    ∷ array2d Array2dClass.svec4_array2d
    ∷ array2d Array2dClass.ivec2_array2d
    ∷ array2d Array2dClass.ivec3_array2d
    ∷ array2d Array2dClass.ivec4_array2d
    ∷ array2d Array2dClass.ubvec2_array2d
    ∷ array2d Array2dClass.ubvec3_array2d
    ∷ array2d Array2dClass.ubvec4_array2d
    ∷ array2d Array2dClass.usvec2_array2d
    ∷ array2d Array2dClass.usvec3_array2d
    ∷ array2d Array2dClass.usvec4_array2d
    ∷ array2d Array2dClass.uivec2_array2d
    ∷ array2d Array2dClass.uivec3_array2d
    ∷ array2d Array2dClass.uivec4_array2d
    ∷ array2d Array2dClass.block64_array2d
    ∷ array2d Array2dClass.block128_array2d
    ∷ array3d Array3dClass.ubyte_array3d
    ∷ array3d Array3dClass.ushort_array3d
    ∷ array3d Array3dClass.uint_array3d
    ∷ array3d Array3dClass.float_array3d
    ∷ array3d Array3dClass.double_array3d
    ∷ array3d Array3dClass.vec2_array3d
    ∷ array3d Array3dClass.vec3_array3d
    ∷ array3d Array3dClass.vec4_array3d
    ∷ array3d Array3dClass.dvec2_array3d
    ∷ array3d Array3dClass.dvec3_array3d
    ∷ array3d Array3dClass.dvec4_array3d
    ∷ array3d Array3dClass.ubvec2_array3d
    ∷ array3d Array3dClass.ubvec3_array3d
    ∷ array3d Array3dClass.ubvec4_array3d
    ∷ array3d Array3dClass.block64_array3d
    ∷ array3d Array3dClass.block128_array3d
    ∷ node NodeClass.node
    ∷ node NodeClass.commands
    ∷ node NodeClass.group
    ∷ node NodeClass.quad_group
    ∷ node NodeClass.lod
    ∷ node NodeClass.paged_lod
    ∷ node NodeClass.state_group
    ∷ node NodeClass.cull_group
    ∷ node NodeClass.cull_node
    ∷ node NodeClass.matrix_transform
    ∷ node NodeClass.geometry
    ∷ node NodeClass.vertex_index_draw
    ∷ vulkan VulkanClass.command
    ∷ vulkan VulkanClass.state_command
    ∷ vulkan VulkanClass.command_buffer
    ∷ vulkan VulkanClass.render_pass
    ∷ vulkan VulkanClass.bind_descriptor_set
    ∷ vulkan VulkanClass.bind_descriptor_sets
    ∷ vulkan VulkanClass.descriptor
    ∷ vulkan VulkanClass.descriptor_set
    ∷ vulkan VulkanClass.bind_vertex_buffers
    ∷ vulkan VulkanClass.bind_index_buffer
    ∷ vulkan VulkanClass.bind_compute_pipeline
    ∷ vulkan VulkanClass.bind_graphics_pipeline
    ∷ vulkan VulkanClass.graphics_pipeline
    ∷ vulkan VulkanClass.compute_pipeline
    ∷ vulkan VulkanClass.graphics_pipeline_state
    ∷ vulkan VulkanClass.shader_stage
    ∷ vulkan VulkanClass.vertex_input_state
    ∷ vulkan VulkanClass.input_assembly_state
    ∷ vulkan VulkanClass.viewport_state
    ∷ vulkan VulkanClass.rasterization_state
    ∷ vulkan VulkanClass.multisample_state
    ∷ vulkan VulkanClass.depth_stencil_state
    ∷ vulkan VulkanClass.color_blend_state
    ∷ vulkan VulkanClass.resource_hints
    ∷ vulkan VulkanClass.draw
    ∷ vulkan VulkanClass.draw_indexed
    ∷ event EventClass.uievent
    ∷ event EventClass.window_event
    ∷ event EventClass.expose_window_event
    ∷ event EventClass.configure_window_event
    ∷ event EventClass.close_window_event
    ∷ event EventClass.key_event
    ∷ event EventClass.key_press_event
    ∷ event EventClass.key_release_event
    ∷ event EventClass.pointer_event
    ∷ event EventClass.button_press_event
    ∷ event EventClass.button_release_event
    ∷ event EventClass.move_event
    ∷ event EventClass.touch_event
    ∷ event EventClass.touch_down_event
    ∷ event EventClass.touch_up_event
    ∷ event EventClass.touch_move_event
    ∷ event EventClass.scroll_wheel_event
    ∷ event EventClass.terminate_event
    ∷ event EventClass.frame_event
    ∷ viewer ViewerClass.command_graph
    ∷ viewer ViewerClass.render_graph
    ∷ []

at-number_value : (c : ValueClass) → at classes (number_value c) ≡ some (value c)
at-number_value ValueClass.string_value = refl
at-number_value _ = refl

at-number_array : (c : ArrayClass) → at classes (number_array c) ≡ some (array c)
at-number_array ArrayClass.ubyte_array = refl
at-number_array _ = refl

at-number_array2d : (c : Array2dClass) → at classes (number_array2d c) ≡ some (array2d c)
at-number_array2d Array2dClass.ubyte_array2d = refl
at-number_array2d _ = refl

at-number_array3d : (c : Array3dClass) → at classes (number_array3d c) ≡ some (array3d c)
at-number_array3d Array3dClass.ubyte_array3d = refl
at-number_array3d _ = refl

at-number_node : (c : NodeClass) → at classes (number_node c) ≡ some (node c)
at-number_node NodeClass.node = refl
at-number_node _ = refl

at-number_vulkan : (c : VulkanClass) → at classes (number_vulkan c) ≡ some (vulkan c)
at-number_vulkan VulkanClass.command = refl
at-number_vulkan _ = refl

at-number_event : (c : EventClass) → at classes (number_event c) ≡ some (event c)
at-number_event EventClass.uievent = refl
at-number_event _ = refl

at-number_viewer : (c : ViewerClass) → at classes (number_viewer c) ≡ some (viewer c)
at-number_viewer ViewerClass.command_graph = refl
at-number_viewer _ = refl

at-number : (c : Class) → at classes (number c) ≡ some c
unfolding number
at-number object = refl
at-number objects = refl
at-number external = refl
at-number data_class = refl
at-number frame_stamp = refl
at-number (value c) = at-number_value c
at-number (array c) = at-number_array c
at-number (array2d c) = at-number_array2d c
at-number (array3d c) = at-number_array3d c
at-number (node c) = at-number_node c
at-number (vulkan c) = at-number_vulkan c
at-number (event c) = at-number_event c
at-number (viewer c) = at-number_viewer c

pub number-injective : (c d : Class) → number c ≡ number d → c ≡ d
number-injective c d h = cc (sym (at-number c), ap (at classes) h, at-number d)

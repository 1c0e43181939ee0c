-- ===== src/Visitor/ConstNext.antt =====
-- The apply methods of src/vsg/core/ConstVisitor.cpp: each but that of Object calls the apply() of the class
-- that it casts to.
use vsg.Base.{Option, none, some}
use vsg.Visitor.{
  Class, object, objects, external, data_class, frame_stamp, value, array, array2d, array3d, node,
  vulkan, event, viewer, ValueClass, ArrayClass, Array2dClass, Array3dClass, NodeClass, VulkanClass,
  EventClass, ViewerClass, string_value, bool_value, int_value, uint_value, float_value,
  double_value, ubyte_array, ushort_array, uint_array, float_array, double_array, vec2_array,
  vec3_array, vec4_array, dvec2_array, dvec3_array, dvec4_array, bvec2_array, bvec3_array,
  bvec4_array, svec2_array, svec3_array, svec4_array, ivec2_array, ivec3_array, ivec4_array,
  ubvec2_array, ubvec3_array, ubvec4_array, usvec2_array, usvec3_array, usvec4_array, uivec2_array,
  uivec3_array, uivec4_array, mat4_array, dmat4_array, block64_array, block128_array, ubyte_array2d,
  ushort_array2d, uint_array2d, float_array2d, double_array2d, vec2_array2d, vec3_array2d,
  vec4_array2d, dvec2_array2d, dvec3_array2d, dvec4_array2d, bvec2_array2d, bvec3_array2d,
  bvec4_array2d, svec2_array2d, svec3_array2d, svec4_array2d, ivec2_array2d, ivec3_array2d,
  ivec4_array2d, ubvec2_array2d, ubvec3_array2d, ubvec4_array2d, usvec2_array2d, usvec3_array2d,
  usvec4_array2d, uivec2_array2d, uivec3_array2d, uivec4_array2d, block64_array2d, block128_array2d,
  ubyte_array3d, ushort_array3d, uint_array3d, float_array3d, double_array3d, vec2_array3d,
  vec3_array3d, vec4_array3d, dvec2_array3d, dvec3_array3d, dvec4_array3d, ubvec2_array3d,
  ubvec3_array3d, ubvec4_array3d, block64_array3d, block128_array3d, node, commands, group,
  quad_group, lod, paged_lod, state_group, cull_group, cull_node, matrix_transform, geometry,
  vertex_index_draw, command, state_command, command_buffer, render_pass, bind_descriptor_set,
  bind_descriptor_sets, descriptor, descriptor_set, bind_vertex_buffers, bind_index_buffer,
  bind_compute_pipeline, bind_graphics_pipeline, graphics_pipeline, compute_pipeline,
  graphics_pipeline_state, shader_stage, vertex_input_state, input_assembly_state, viewport_state,
  rasterization_state, multisample_state, depth_stencil_state, color_blend_state, resource_hints,
  draw, draw_indexed, uievent, window_event, expose_window_event, configure_window_event,
  close_window_event, key_event, key_press_event, key_release_event, pointer_event,
  button_press_event, button_release_event, move_event, touch_event, touch_down_event,
  touch_up_event, touch_move_event, scroll_wheel_event, terminate_event, frame_event, command_graph,
  render_graph,
}

-- The class that ConstVisitor::apply casts to, for the section.
abbrev pub const_next_value : ValueClass → Class
const_next_value string_value = data_class
const_next_value bool_value = data_class
const_next_value int_value = data_class
const_next_value uint_value = data_class
const_next_value float_value = data_class
const_next_value double_value = data_class

abbrev pub const_next_array : ArrayClass → Class
const_next_array ubyte_array = data_class
const_next_array ushort_array = data_class
const_next_array uint_array = data_class
const_next_array float_array = data_class
const_next_array double_array = data_class
const_next_array vec2_array = data_class
const_next_array vec3_array = data_class
const_next_array vec4_array = data_class
const_next_array dvec2_array = data_class
const_next_array dvec3_array = data_class
const_next_array dvec4_array = data_class
const_next_array bvec2_array = data_class
const_next_array bvec3_array = data_class
const_next_array bvec4_array = data_class
const_next_array svec2_array = data_class
const_next_array svec3_array = data_class
const_next_array svec4_array = data_class
const_next_array ivec2_array = data_class
const_next_array ivec3_array = data_class
const_next_array ivec4_array = data_class
const_next_array ubvec2_array = data_class
const_next_array ubvec3_array = data_class
const_next_array ubvec4_array = data_class
const_next_array usvec2_array = data_class
const_next_array usvec3_array = data_class
const_next_array usvec4_array = data_class
const_next_array uivec2_array = data_class
const_next_array uivec3_array = data_class
const_next_array uivec4_array = data_class
const_next_array mat4_array = data_class
const_next_array dmat4_array = data_class
const_next_array block64_array = data_class
const_next_array block128_array = data_class

abbrev pub const_next_array2d : Array2dClass → Class
const_next_array2d ubyte_array2d = data_class
const_next_array2d ushort_array2d = data_class
const_next_array2d uint_array2d = data_class
const_next_array2d float_array2d = data_class
const_next_array2d double_array2d = data_class
const_next_array2d vec2_array2d = data_class
const_next_array2d vec3_array2d = data_class
const_next_array2d vec4_array2d = data_class
const_next_array2d dvec2_array2d = data_class
const_next_array2d dvec3_array2d = data_class
const_next_array2d dvec4_array2d = data_class
const_next_array2d bvec2_array2d = data_class
const_next_array2d bvec3_array2d = data_class
const_next_array2d bvec4_array2d = data_class
const_next_array2d svec2_array2d = data_class
const_next_array2d svec3_array2d = data_class
const_next_array2d svec4_array2d = data_class
const_next_array2d ivec2_array2d = data_class
const_next_array2d ivec3_array2d = data_class
const_next_array2d ivec4_array2d = data_class
const_next_array2d ubvec2_array2d = data_class
const_next_array2d ubvec3_array2d = data_class
const_next_array2d ubvec4_array2d = data_class
const_next_array2d usvec2_array2d = data_class
const_next_array2d usvec3_array2d = data_class
const_next_array2d usvec4_array2d = data_class
const_next_array2d uivec2_array2d = data_class
const_next_array2d uivec3_array2d = data_class
const_next_array2d uivec4_array2d = data_class
const_next_array2d block64_array2d = data_class
const_next_array2d block128_array2d = data_class

abbrev pub const_next_array3d : Array3dClass → Class
const_next_array3d ubyte_array3d = data_class
const_next_array3d ushort_array3d = data_class
const_next_array3d uint_array3d = data_class
const_next_array3d float_array3d = data_class
const_next_array3d double_array3d = data_class
const_next_array3d vec2_array3d = data_class
const_next_array3d vec3_array3d = data_class
const_next_array3d vec4_array3d = data_class
const_next_array3d dvec2_array3d = data_class
const_next_array3d dvec3_array3d = data_class
const_next_array3d dvec4_array3d = data_class
const_next_array3d ubvec2_array3d = data_class
const_next_array3d ubvec3_array3d = data_class
const_next_array3d ubvec4_array3d = data_class
const_next_array3d block64_array3d = data_class
const_next_array3d block128_array3d = data_class

abbrev pub const_next_node : NodeClass → Class
const_next_node node = object
const_next_node commands = node node
const_next_node group = node node
const_next_node quad_group = node node
const_next_node lod = node node
const_next_node paged_lod = node node
const_next_node state_group = node group
const_next_node cull_group = node group
const_next_node cull_node = node node
const_next_node matrix_transform = node group
const_next_node geometry = vulkan command
const_next_node vertex_index_draw = vulkan command

abbrev pub const_next_vulkan : VulkanClass → Class
const_next_vulkan command = node node
const_next_vulkan state_command = vulkan command
const_next_vulkan command_buffer = object
const_next_vulkan render_pass = object
const_next_vulkan bind_descriptor_set = vulkan state_command
const_next_vulkan bind_descriptor_sets = vulkan state_command
const_next_vulkan descriptor = object
const_next_vulkan descriptor_set = object
const_next_vulkan bind_vertex_buffers = vulkan command
const_next_vulkan bind_index_buffer = vulkan command
const_next_vulkan bind_compute_pipeline = vulkan state_command
const_next_vulkan bind_graphics_pipeline = vulkan state_command
const_next_vulkan graphics_pipeline = object
const_next_vulkan compute_pipeline = object
const_next_vulkan graphics_pipeline_state = object
const_next_vulkan shader_stage = object
const_next_vulkan vertex_input_state = vulkan graphics_pipeline_state
const_next_vulkan input_assembly_state = vulkan graphics_pipeline_state
const_next_vulkan viewport_state = vulkan graphics_pipeline_state
const_next_vulkan rasterization_state = vulkan graphics_pipeline_state
const_next_vulkan multisample_state = vulkan graphics_pipeline_state
const_next_vulkan depth_stencil_state = vulkan graphics_pipeline_state
const_next_vulkan color_blend_state = vulkan graphics_pipeline_state
const_next_vulkan resource_hints = object
const_next_vulkan draw = vulkan command
const_next_vulkan draw_indexed = vulkan command

abbrev pub const_next_event : EventClass → Class
const_next_event uievent = object
const_next_event window_event = event uievent
const_next_event expose_window_event = event window_event
const_next_event configure_window_event = event window_event
const_next_event close_window_event = event window_event
const_next_event key_event = event window_event
const_next_event key_press_event = event key_event
const_next_event key_release_event = event key_event
const_next_event pointer_event = event window_event
const_next_event button_press_event = event pointer_event
const_next_event button_release_event = event pointer_event
const_next_event move_event = event pointer_event
const_next_event touch_event = event window_event
const_next_event touch_down_event = event touch_event
const_next_event touch_up_event = event touch_event
const_next_event touch_move_event = event touch_event
const_next_event scroll_wheel_event = event window_event
const_next_event terminate_event = event uievent
const_next_event frame_event = event uievent

abbrev pub const_next_viewer : ViewerClass → Class
const_next_viewer command_graph = node group
const_next_viewer render_graph = node group

-- ConstVisitor::apply of each class; that of Object does nothing.
unfoldable pub const_next : Class → Option Class
const_next object = none
const_next objects = some object
const_next external = some object
const_next data_class = some object
const_next frame_stamp = some object
const_next (value c) = some (const_next_value c)
const_next (array c) = some (const_next_array c)
const_next (array2d c) = some (const_next_array2d c)
const_next (array3d c) = some (const_next_array3d c)
const_next (node c) = some (const_next_node c)
const_next (vulkan c) = some (const_next_vulkan c)
const_next (event c) = some (const_next_event c)
const_next (viewer c) = some (const_next_viewer c)

-- ===== src/Visitor/Next.antt =====
-- The apply methods of src/vsg/core/Visitor.cpp: each but that of Object calls the apply() of the class
-- that it casts to.
use vsg.Base.{Option, none, some}
use vsg.Visitor.{
  Class, object, objects, external, data_class, frame_stamp, value, array, array2d, array3d, node,
  vulkan, event, viewer, ValueClass, ArrayClass, Array2dClass, Array3dClass, NodeClass, VulkanClass,
  EventClass, ViewerClass, string_value, bool_value, int_value, uint_value, float_value,
  double_value, ubyte_array, ushort_array, uint_array, float_array, double_array, vec2_array,
  vec3_array, vec4_array, dvec2_array, dvec3_array, dvec4_array, bvec2_array, bvec3_array,
  bvec4_array, svec2_array, svec3_array, svec4_array, ivec2_array, ivec3_array, ivec4_array,
  ubvec2_array, ubvec3_array, ubvec4_array, usvec2_array, usvec3_array, usvec4_array, uivec2_array,
  uivec3_array, uivec4_array, mat4_array, dmat4_array, block64_array, block128_array, ubyte_array2d,
  ushort_array2d, uint_array2d, float_array2d, double_array2d, vec2_array2d, vec3_array2d,
  vec4_array2d, dvec2_array2d, dvec3_array2d, dvec4_array2d, bvec2_array2d, bvec3_array2d,
  bvec4_array2d, svec2_array2d, svec3_array2d, svec4_array2d, ivec2_array2d, ivec3_array2d,
  ivec4_array2d, ubvec2_array2d, ubvec3_array2d, ubvec4_array2d, usvec2_array2d, usvec3_array2d,
  usvec4_array2d, uivec2_array2d, uivec3_array2d, uivec4_array2d, block64_array2d, block128_array2d,
  ubyte_array3d, ushort_array3d, uint_array3d, float_array3d, double_array3d, vec2_array3d,
  vec3_array3d, vec4_array3d, dvec2_array3d, dvec3_array3d, dvec4_array3d, ubvec2_array3d,
  ubvec3_array3d, ubvec4_array3d, block64_array3d, block128_array3d, node, commands, group,
  quad_group, lod, paged_lod, state_group, cull_group, cull_node, matrix_transform, geometry,
  vertex_index_draw, command, state_command, command_buffer, render_pass, bind_descriptor_set,
  bind_descriptor_sets, descriptor, descriptor_set, bind_vertex_buffers, bind_index_buffer,
  bind_compute_pipeline, bind_graphics_pipeline, graphics_pipeline, compute_pipeline,
  graphics_pipeline_state, shader_stage, vertex_input_state, input_assembly_state, viewport_state,
  rasterization_state, multisample_state, depth_stencil_state, color_blend_state, resource_hints,
  draw, draw_indexed, uievent, window_event, expose_window_event, configure_window_event,
  close_window_event, key_event, key_press_event, key_release_event, pointer_event,
  button_press_event, button_release_event, move_event, touch_event, touch_down_event,
  touch_up_event, touch_move_event, scroll_wheel_event, terminate_event, frame_event, command_graph,
  render_graph,
}

-- The class that Visitor::apply casts to, for the section.
abbrev pub next_value : ValueClass → Class
next_value string_value = data_class
next_value bool_value = data_class
next_value int_value = data_class
next_value uint_value = data_class
next_value float_value = data_class
next_value double_value = data_class

abbrev pub next_array : ArrayClass → Class
next_array ubyte_array = data_class
next_array ushort_array = data_class
next_array uint_array = data_class
next_array float_array = data_class
next_array double_array = data_class
next_array vec2_array = data_class
next_array vec3_array = data_class
next_array vec4_array = data_class
next_array dvec2_array = data_class
next_array dvec3_array = data_class
next_array dvec4_array = data_class
next_array bvec2_array = data_class
next_array bvec3_array = data_class
next_array bvec4_array = data_class
next_array svec2_array = data_class
next_array svec3_array = data_class
next_array svec4_array = data_class
next_array ivec2_array = data_class
next_array ivec3_array = data_class
next_array ivec4_array = data_class
next_array ubvec2_array = data_class
next_array ubvec3_array = data_class
next_array ubvec4_array = data_class
next_array usvec2_array = data_class
next_array usvec3_array = data_class
next_array usvec4_array = data_class
next_array uivec2_array = data_class
next_array uivec3_array = data_class
next_array uivec4_array = data_class
next_array mat4_array = data_class
next_array dmat4_array = data_class
next_array block64_array = data_class
next_array block128_array = data_class

abbrev pub next_array2d : Array2dClass → Class
next_array2d ubyte_array2d = data_class
next_array2d ushort_array2d = data_class
next_array2d uint_array2d = data_class
next_array2d float_array2d = data_class
next_array2d double_array2d = data_class
next_array2d vec2_array2d = data_class
next_array2d vec3_array2d = data_class
next_array2d vec4_array2d = data_class
next_array2d dvec2_array2d = data_class
next_array2d dvec3_array2d = data_class
next_array2d dvec4_array2d = data_class
next_array2d bvec2_array2d = data_class
next_array2d bvec3_array2d = data_class
next_array2d bvec4_array2d = data_class
next_array2d svec2_array2d = data_class
next_array2d svec3_array2d = data_class
next_array2d svec4_array2d = data_class
next_array2d ivec2_array2d = data_class
next_array2d ivec3_array2d = data_class
next_array2d ivec4_array2d = data_class
next_array2d ubvec2_array2d = data_class
next_array2d ubvec3_array2d = data_class
next_array2d ubvec4_array2d = data_class
next_array2d usvec2_array2d = data_class
next_array2d usvec3_array2d = data_class
next_array2d usvec4_array2d = data_class
next_array2d uivec2_array2d = data_class
next_array2d uivec3_array2d = data_class
next_array2d uivec4_array2d = data_class
next_array2d block64_array2d = data_class
next_array2d block128_array2d = data_class

abbrev pub next_array3d : Array3dClass → Class
next_array3d ubyte_array3d = data_class
next_array3d ushort_array3d = data_class
next_array3d uint_array3d = data_class
next_array3d float_array3d = data_class
next_array3d double_array3d = data_class
next_array3d vec2_array3d = data_class
next_array3d vec3_array3d = data_class
next_array3d vec4_array3d = data_class
next_array3d dvec2_array3d = data_class
next_array3d dvec3_array3d = data_class
next_array3d dvec4_array3d = data_class
next_array3d ubvec2_array3d = data_class
next_array3d ubvec3_array3d = data_class
next_array3d ubvec4_array3d = data_class
next_array3d block64_array3d = data_class
next_array3d block128_array3d = data_class

abbrev pub next_node : NodeClass → Class
next_node node = object
next_node commands = node node
next_node group = node node
next_node quad_group = node node
next_node lod = node node
next_node paged_lod = node node
next_node state_group = node group
next_node cull_group = node group
next_node cull_node = node node
next_node matrix_transform = node group
next_node geometry = vulkan command
next_node vertex_index_draw = vulkan command

abbrev pub next_vulkan : VulkanClass → Class
next_vulkan command = node node
next_vulkan state_command = vulkan command
next_vulkan command_buffer = object
next_vulkan render_pass = object
next_vulkan bind_descriptor_set = vulkan state_command
next_vulkan bind_descriptor_sets = vulkan state_command
next_vulkan descriptor = object
next_vulkan descriptor_set = object
next_vulkan bind_vertex_buffers = vulkan command
next_vulkan bind_index_buffer = vulkan command
next_vulkan bind_compute_pipeline = vulkan state_command
next_vulkan bind_graphics_pipeline = vulkan state_command
next_vulkan graphics_pipeline = object
next_vulkan compute_pipeline = object
next_vulkan graphics_pipeline_state = object
next_vulkan shader_stage = object
next_vulkan vertex_input_state = vulkan graphics_pipeline_state
next_vulkan input_assembly_state = vulkan graphics_pipeline_state
next_vulkan viewport_state = vulkan graphics_pipeline_state
next_vulkan rasterization_state = vulkan graphics_pipeline_state
next_vulkan multisample_state = vulkan graphics_pipeline_state
next_vulkan depth_stencil_state = vulkan graphics_pipeline_state
next_vulkan color_blend_state = vulkan graphics_pipeline_state
next_vulkan resource_hints = object
next_vulkan draw = vulkan command
next_vulkan draw_indexed = vulkan command

abbrev pub next_event : EventClass → Class
next_event uievent = object
next_event window_event = event uievent
next_event expose_window_event = event window_event
next_event configure_window_event = event window_event
next_event close_window_event = event window_event
next_event key_event = event window_event
next_event key_press_event = event key_event
next_event key_release_event = event key_event
next_event pointer_event = event window_event
next_event button_press_event = event pointer_event
next_event button_release_event = event pointer_event
next_event move_event = event pointer_event
next_event touch_event = event window_event
next_event touch_down_event = event touch_event
next_event touch_up_event = event touch_event
next_event touch_move_event = event touch_event
next_event scroll_wheel_event = event window_event
next_event terminate_event = event uievent
next_event frame_event = event uievent

abbrev pub next_viewer : ViewerClass → Class
next_viewer command_graph = node group
next_viewer render_graph = node group

-- Visitor::apply of each class; that of Object does nothing.
unfoldable pub next : Class → Option Class
next object = none
next objects = some object
next external = some object
next data_class = some object
next frame_stamp = some object
next (value c) = some (next_value c)
next (array c) = some (next_array c)
next (array2d c) = some (next_array2d c)
next (array3d c) = some (next_array3d c)
next (node c) = some (next_node c)
next (vulkan c) = some (next_vulkan c)
next (event c) = some (next_event c)
next (viewer c) = some (next_viewer c)

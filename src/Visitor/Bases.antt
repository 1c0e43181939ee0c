-- ===== src/Visitor/Bases.antt =====
-- The base classes, as the headers declare them by Inherit, Value, Array, Array2D and Array3D.
use vsg.Base.{Option, none, some}
use vsg.Visitor.{
  Class, object, objects, external, data_class, frame_stamp, value, array, array2d, array3d, node,
  vulkan, event, viewer, NodeClass, VulkanClass, EventClass, ViewerClass, node, commands, group,
  quad_group, lod, paged_lod, state_group, cull_group, cull_node, matrix_transform, geometry,
  vertex_index_draw, command, state_command, command_buffer, render_pass, bind_descriptor_set,
  bind_descriptor_sets, descriptor, descriptor_set, bind_vertex_buffers, bind_index_buffer,
  bind_compute_pipeline, bind_graphics_pipeline, graphics_pipeline, compute_pipeline,
  graphics_pipeline_state, shader_stage, vertex_input_state, input_assembly_state, viewport_state,
  rasterization_state, multisample_state, depth_stencil_state, color_blend_state, resource_hints,
  draw, draw_indexed, uievent, window_event, expose_window_event, configure_window_event,
  close_window_event, key_event, key_press_event, key_release_event, pointer_event,
  button_press_event, button_release_event, move_event, touch_event, touch_down_event,
  touch_up_event, touch_move_event, scroll_wheel_event, terminate_event, frame_event, command_graph,
  render_graph,
}

abbrev pub base_node : NodeClass → Class
base_node node = object
base_node commands = vulkan command
base_node group = node node
base_node quad_group = node node
base_node lod = node node
base_node paged_lod = node node
base_node state_group = node group
base_node cull_group = node group
base_node cull_node = node node
base_node matrix_transform = node group
base_node geometry = vulkan command
base_node vertex_index_draw = vulkan command

abbrev pub base_vulkan : VulkanClass → Class
base_vulkan command = node node
base_vulkan state_command = vulkan command
base_vulkan command_buffer = object
base_vulkan render_pass = object
base_vulkan bind_descriptor_set = vulkan state_command
base_vulkan bind_descriptor_sets = vulkan state_command
base_vulkan descriptor = object
base_vulkan descriptor_set = object
base_vulkan bind_vertex_buffers = vulkan command
base_vulkan bind_index_buffer = vulkan command
base_vulkan bind_compute_pipeline = vulkan state_command
base_vulkan bind_graphics_pipeline = vulkan state_command
base_vulkan graphics_pipeline = object
base_vulkan compute_pipeline = object
base_vulkan graphics_pipeline_state = object
base_vulkan shader_stage = object
base_vulkan vertex_input_state = vulkan graphics_pipeline_state
base_vulkan input_assembly_state = vulkan graphics_pipeline_state
base_vulkan viewport_state = vulkan graphics_pipeline_state
base_vulkan rasterization_state = vulkan graphics_pipeline_state
base_vulkan multisample_state = vulkan graphics_pipeline_state
base_vulkan depth_stencil_state = vulkan graphics_pipeline_state
base_vulkan color_blend_state = vulkan graphics_pipeline_state
base_vulkan resource_hints = object
base_vulkan draw = vulkan command
base_vulkan draw_indexed = vulkan command

abbrev pub base_event : EventClass → Class
base_event uievent = object
base_event window_event = event uievent
base_event expose_window_event = event window_event
base_event configure_window_event = event window_event
base_event close_window_event = event window_event
base_event key_event = event window_event
base_event key_press_event = event key_event
base_event key_release_event = event key_event
base_event pointer_event = event window_event
base_event button_press_event = event pointer_event
base_event button_release_event = event pointer_event
base_event move_event = event pointer_event
base_event touch_event = event window_event
base_event touch_down_event = event touch_event
base_event touch_up_event = event touch_event
base_event touch_move_event = event touch_event
base_event scroll_wheel_event = event window_event
base_event terminate_event = event uievent
base_event frame_event = event uievent

abbrev pub base_viewer : ViewerClass → Class
base_viewer command_graph = node group
base_viewer render_graph = node group

unfoldable pub base : Class → Option Class
base object = none
base objects = some object
base external = some object
base data_class = some object
base frame_stamp = some object
base (value c) = some data_class
base (array c) = some data_class
base (array2d c) = some data_class
base (array3d c) = some data_class
base (node c) = some (base_node c)
base (vulkan c) = some (base_vulkan c)
base (event c) = some (base_event c)
base (viewer c) = some (base_viewer c)

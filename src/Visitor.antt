-- ===== src/Visitor.antt =====
-- The classes that Visitor and ConstVisitor of src/vsg/core have an apply() for, by the sections of
-- Visitor.cpp, with their base classes and the identity of their type.
pub mod Next
pub mod ConstNext
pub mod Bases
pub mod Dispatch
pub mod Number
pub mod Types
mod Tests

pub data ValueClass : Type 0 where
  string_value bool_value int_value uint_value float_value double_value : ValueClass

pub data ArrayClass : Type 0 where
  ubyte_array ushort_array uint_array float_array double_array vec2_array vec3_array vec4_array
        dvec2_array dvec3_array dvec4_array bvec2_array bvec3_array bvec4_array svec2_array
        svec3_array svec4_array ivec2_array ivec3_array ivec4_array ubvec2_array ubvec3_array
        ubvec4_array usvec2_array usvec3_array usvec4_array uivec2_array uivec3_array uivec4_array
        mat4_array dmat4_array block64_array block128_array :
      ArrayClass

pub data Array2dClass : Type 0 where
  ubyte_array2d ushort_array2d uint_array2d float_array2d double_array2d vec2_array2d vec3_array2d
        vec4_array2d dvec2_array2d dvec3_array2d dvec4_array2d bvec2_array2d bvec3_array2d
        bvec4_array2d svec2_array2d svec3_array2d svec4_array2d ivec2_array2d ivec3_array2d
        ivec4_array2d ubvec2_array2d ubvec3_array2d ubvec4_array2d usvec2_array2d usvec3_array2d
        usvec4_array2d uivec2_array2d uivec3_array2d uivec4_array2d block64_array2d
        block128_array2d :
      Array2dClass

pub data Array3dClass : Type 0 where
  ubyte_array3d ushort_array3d uint_array3d float_array3d double_array3d vec2_array3d vec3_array3d
        vec4_array3d dvec2_array3d dvec3_array3d dvec4_array3d ubvec2_array3d ubvec3_array3d
        ubvec4_array3d block64_array3d block128_array3d :
      Array3dClass

pub data NodeClass : Type 0 where
  node commands group quad_group lod paged_lod state_group cull_group cull_node matrix_transform
        geometry vertex_index_draw :
      NodeClass

pub data VulkanClass : Type 0 where
  command state_command command_buffer render_pass bind_descriptor_set bind_descriptor_sets
        descriptor descriptor_set bind_vertex_buffers bind_index_buffer bind_compute_pipeline
        bind_graphics_pipeline graphics_pipeline compute_pipeline graphics_pipeline_state
        shader_stage vertex_input_state input_assembly_state viewport_state rasterization_state
        multisample_state depth_stencil_state color_blend_state resource_hints draw draw_indexed :
      VulkanClass

pub data EventClass : Type 0 where
  uievent window_event expose_window_event configure_window_event close_window_event key_event
        key_press_event key_release_event pointer_event button_press_event button_release_event
        move_event touch_event touch_down_event touch_up_event touch_move_event scroll_wheel_event
        terminate_event frame_event :
      EventClass

pub data ViewerClass : Type 0 where
  command_graph render_graph : ViewerClass

pub data Class : Type 0 where
  object objects external data_class frame_stamp : Class
  value : ValueClass → Class
  array : ArrayClass → Class
  array2d : Array2dClass → Class
  array3d : Array3dClass → Class
  node : NodeClass → Class
  vulkan : VulkanClass → Class
  event : EventClass → Class
  viewer : ViewerClass → Class

-- ===== src/Events/Types.antt =====
-- events.hpp: `SessionEventType`, and the structs that an event's data is read as.
pub data SessionEventType : Type 0 where
  session_start session_resume session_error session_idle session_info : SessionEventType
  session_model_change session_handoff session_truncation user_message : SessionEventType
  pending_messages_modified assistant_turn_start assistant_intent : SessionEventType
  assistant_reasoning assistant_reasoning_delta assistant_message : SessionEventType
  assistant_message_delta assistant_turn_end assistant_usage abort : SessionEventType
  tool_user_requested tool_execution_start tool_execution_partial_result : SessionEventType
  tool_execution_complete tool_execution_progress session_compaction_start : SessionEventType
  session_compaction_complete session_usage_info custom_agent_started : SessionEventType
  custom_agent_completed custom_agent_failed custom_agent_selected hook_start : SessionEventType
  hook_end system_message session_snapshot_rewind session_shutdown skill_invoked : SessionEventType
  session_remote_steerable_changed session_title_changed session_schedule_created : SessionEventType
  session_schedule_cancelled session_warning session_mode_changed : SessionEventType
  session_plan_changed session_workspace_file_changed session_context_changed : SessionEventType
  session_task_complete session_custom_notification session_tools_updated : SessionEventType
  session_background_tasks_changed session_skills_loaded : SessionEventType
  session_custom_agents_updated session_mcp_servers_loaded : SessionEventType
  session_mcp_server_status_changed session_extensions_loaded : SessionEventType
  assistant_streaming_delta assistant_message_start model_call_failure : SessionEventType
  subagent_deselected permission_requested permission_completed : SessionEventType
  user_input_requested user_input_completed elicitation_requested : SessionEventType
  elicitation_completed sampling_requested sampling_completed mcp_oauth_required : SessionEventType
  mcp_oauth_completed external_tool_requested external_tool_completed : SessionEventType
  command_queued command_execute command_completed auto_mode_switch_requested : SessionEventType
  auto_mode_switch_completed commands_changed capabilities_changed : SessionEventType
  exit_plan_mode_requested exit_plan_mode_completed system_notification : SessionEventType
  session_schedule_rearmed session_autopilot_objective_changed : SessionEventType
  session_session_limits_changed session_permissions_changed session_todos_changed :
      SessionEventType
  session_memory_changed session_usage_checkpoint session_context_cleared : SessionEventType
  session_fusion_route_started session_fusion_route_failed session_fusion_resolved :
      SessionEventType
  session_fusion_handoff session_fusion_commit_started session_fusion_completed : SessionEventType
  assistant_turn_retry agent_interrupted assistant_fusion_phase_started : SessionEventType
  assistant_fusion_phase_completed assistant_fusion_phase_failed : SessionEventType
  assistant_server_tool_progress assistant_tool_call_delta assistant_idle : SessionEventType
  prompt_cache_break model_call_finished model_call_start tool_search_activated : SessionEventType
  sandbox_decision subagent_configured hook_progress session_binary_asset : SessionEventType
  mcp_headers_refresh_required mcp_headers_refresh_completed ui_ephemeral_query : SessionEventType
  session_limits_exhausted_requested session_limits_exhausted_completed : SessionEventType
  session_auto_mode_resolved session_managed_settings_resolved : SessionEventType
  session_managed_settings_enforced factory_run_updated factory_run_started : SessionEventType
  factory_run_settled mcp_tools_list_changed mcp_resources_list_changed : SessionEventType
  mcp_prompts_list_changed session_canvas_opened session_canvas_registry_changed : SessionEventType
  session_canvas_closed session_canvas_unavailable session_canvas_recorded : SessionEventType
  session_canvas_removed session_extensions_attachments_pushed : SessionEventType
  mcp_app_tool_call_complete session_auto_tier_recommendation : SessionEventType
  session_auto_tier_switch_failed session_mode_notice_delivered : SessionEventType
  session_completion_receipt assistant_fusion_phase_activity : SessionEventType
  permission_carried_forward permission_message_authorization : SessionEventType
  permission_message_authorization_read permission_message_authorization_degraded : SessionEventType
  session_mcp_server_removed session_mcp_server_needs_reconnect skill_invoked_ref : SessionEventType
  skill_context_delivered skill_context_delivered_ref unknown : SessionEventType

-- The alternatives of `SessionEventData` that `parse_session_event` reads.
pub data Payload : Type 0 where
  session_start_data session_resume_data session_error_data session_idle_data : Payload
  session_info_data session_model_change_data session_handoff_data : Payload
  session_truncation_data user_message_data pending_messages_modified_data : Payload
  assistant_turn_start_data assistant_intent_data assistant_reasoning_data : Payload
  assistant_reasoning_delta_data assistant_message_data : Payload
  assistant_message_delta_data assistant_turn_end_data assistant_usage_data : Payload
  abort_data tool_user_requested_data tool_execution_start_data : Payload
  tool_execution_partial_result_data tool_execution_complete_data : Payload
  tool_execution_progress_data session_compaction_start_data : Payload
  session_compaction_complete_data session_usage_info_data : Payload
  custom_agent_started_data custom_agent_completed_data custom_agent_failed_data : Payload
  custom_agent_selected_data hook_start_data hook_end_data system_message_data : Payload
  session_snapshot_rewind_data session_shutdown_data skill_invoked_data : Payload
  session_remote_steerable_changed_data session_title_changed_data : Payload
  session_schedule_created_data session_schedule_cancelled_data : Payload
  session_warning_data session_mode_changed_data session_plan_changed_data : Payload
  session_workspace_file_changed_data session_context_changed_data : Payload
  session_task_complete_data session_custom_notification_data : Payload
  session_tools_updated_data session_background_tasks_changed_data : Payload
  session_skills_loaded_data session_custom_agents_updated_data : Payload
  session_mcp_servers_loaded_data session_mcp_server_status_changed_data : Payload
  session_extensions_loaded_data assistant_streaming_delta_data : Payload
  assistant_message_start_data model_call_failure_data subagent_deselected_data : Payload
  permission_requested_data permission_completed_data user_input_requested_data : Payload
  user_input_completed_data elicitation_requested_data elicitation_completed_data : Payload
  sampling_requested_data sampling_completed_data mcp_oauth_required_data : Payload
  mcp_oauth_completed_data external_tool_requested_data : Payload
  external_tool_completed_data command_queued_data command_execute_data : Payload
  command_completed_data auto_mode_switch_requested_data : Payload
  auto_mode_switch_completed_data commands_changed_data capabilities_changed_data : Payload
  exit_plan_mode_requested_data exit_plan_mode_completed_data : Payload
  system_notification_data schedule_rearmed_data autopilot_objective_changed_data : Payload
  session_limits_changed_data permissions_changed_data todos_changed_data : Payload
  memory_changed_data usage_checkpoint_data context_cleared_data : Payload
  fusion_route_started_data fusion_route_failed_data fusion_resolved_data : Payload
  fusion_handoff_data fusion_commit_started_data fusion_completed_data : Payload
  assistant_turn_retry_data agent_interrupted_data fusion_phase_started_data : Payload
  fusion_phase_completed_data fusion_phase_failed_data : Payload
  assistant_server_tool_progress_data assistant_tool_call_delta_data : Payload
  assistant_idle_data prompt_cache_break_data model_call_finished_data : Payload
  model_call_start_data tool_search_activated_data sandbox_decision_data : Payload
  subagent_configured_data hook_progress_data binary_asset_data : Payload
  mcp_headers_refresh_required_data mcp_headers_refresh_completed_data : Payload
  ui_ephemeral_query_data session_limits_exhausted_requested_data : Payload
  session_limits_exhausted_completed_data auto_mode_resolved_data : Payload
  managed_settings_resolved_data managed_settings_enforced_data : Payload
  factory_run_updated_data factory_run_started_data factory_run_settled_data : Payload
  mcp_list_changed_data canvas_opened_data canvas_registry_changed_data : Payload
  canvas_closed_data canvas_unavailable_data canvas_recorded_data : Payload
  canvas_removed_data extensions_attachments_pushed_data : Payload
  mcp_app_tool_call_complete_data : Payload

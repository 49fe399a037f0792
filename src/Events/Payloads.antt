-- ===== src/Events/Payloads.antt =====
-- events.hpp: the struct that the data of each event type is read as, the `switch` of
-- `parse_session_event`.
use copilot_cpp.Prelude.{Option, none, some}
use copilot_cpp.Events.Types.{
  SessionEventType, Payload, session_start, session_resume, session_error, session_idle,
  session_info, session_model_change, session_handoff, session_truncation, user_message,
  pending_messages_modified, assistant_turn_start, assistant_intent, assistant_reasoning,
  assistant_reasoning_delta, assistant_message, assistant_message_delta, assistant_turn_end,
  assistant_usage, abort, tool_user_requested, tool_execution_start, tool_execution_partial_result,
  tool_execution_complete, tool_execution_progress, session_compaction_start,
  session_compaction_complete, session_usage_info, custom_agent_started, custom_agent_completed,
  custom_agent_failed, custom_agent_selected, hook_start, hook_end, system_message,
  session_snapshot_rewind, session_shutdown, skill_invoked, session_remote_steerable_changed,
  session_title_changed, session_schedule_created, session_schedule_cancelled, session_warning,
  session_mode_changed, session_plan_changed, session_workspace_file_changed,
  session_context_changed, session_task_complete, session_custom_notification,
  session_tools_updated, session_background_tasks_changed, session_skills_loaded,
  session_custom_agents_updated, session_mcp_servers_loaded, session_mcp_server_status_changed,
  session_extensions_loaded, assistant_streaming_delta, assistant_message_start, model_call_failure,
  subagent_deselected, permission_requested, permission_completed, user_input_requested,
  user_input_completed, elicitation_requested, elicitation_completed, sampling_requested,
  sampling_completed, mcp_oauth_required, mcp_oauth_completed, external_tool_requested,
  external_tool_completed, command_queued, command_execute, command_completed,
  auto_mode_switch_requested, auto_mode_switch_completed, commands_changed, capabilities_changed,
  exit_plan_mode_requested, exit_plan_mode_completed, system_notification, session_schedule_rearmed,
  session_autopilot_objective_changed, session_session_limits_changed, session_permissions_changed,
  session_todos_changed, session_memory_changed, session_usage_checkpoint, session_context_cleared,
  session_fusion_route_started, session_fusion_route_failed, session_fusion_resolved,
  session_fusion_handoff, session_fusion_commit_started, session_fusion_completed,
  assistant_turn_retry, agent_interrupted, assistant_fusion_phase_started,
  assistant_fusion_phase_completed, assistant_fusion_phase_failed, assistant_server_tool_progress,
  assistant_tool_call_delta, assistant_idle, prompt_cache_break, model_call_finished,
  model_call_start, tool_search_activated, sandbox_decision, subagent_configured, hook_progress,
  session_binary_asset, mcp_headers_refresh_required, mcp_headers_refresh_completed,
  ui_ephemeral_query, session_limits_exhausted_requested, session_limits_exhausted_completed,
  session_auto_mode_resolved, session_managed_settings_resolved, session_managed_settings_enforced,
  factory_run_updated, factory_run_started, factory_run_settled, mcp_tools_list_changed,
  mcp_resources_list_changed, mcp_prompts_list_changed, session_canvas_opened,
  session_canvas_registry_changed, session_canvas_closed, session_canvas_unavailable,
  session_canvas_recorded, session_canvas_removed, session_extensions_attachments_pushed,
  mcp_app_tool_call_complete, session_start_data, session_resume_data, session_error_data,
  session_idle_data, session_info_data, session_model_change_data, session_handoff_data,
  session_truncation_data, user_message_data, pending_messages_modified_data,
  assistant_turn_start_data, assistant_intent_data, assistant_reasoning_data,
  assistant_reasoning_delta_data, assistant_message_data, assistant_message_delta_data,
  assistant_turn_end_data, assistant_usage_data, abort_data, tool_user_requested_data,
  tool_execution_start_data, tool_execution_partial_result_data, tool_execution_complete_data,
  tool_execution_progress_data, session_compaction_start_data, session_compaction_complete_data,
  session_usage_info_data, custom_agent_started_data, custom_agent_completed_data,
  custom_agent_failed_data, custom_agent_selected_data, hook_start_data, hook_end_data,
  system_message_data, session_snapshot_rewind_data, session_shutdown_data, skill_invoked_data,
  session_remote_steerable_changed_data, session_title_changed_data, session_schedule_created_data,
  session_schedule_cancelled_data, session_warning_data, session_mode_changed_data,
  session_plan_changed_data, session_workspace_file_changed_data, session_context_changed_data,
  session_task_complete_data, session_custom_notification_data, session_tools_updated_data,
  session_background_tasks_changed_data, session_skills_loaded_data,
  session_custom_agents_updated_data, session_mcp_servers_loaded_data,
  session_mcp_server_status_changed_data, session_extensions_loaded_data,
  assistant_streaming_delta_data, assistant_message_start_data, model_call_failure_data,
  subagent_deselected_data, permission_requested_data, permission_completed_data,
  user_input_requested_data, user_input_completed_data, elicitation_requested_data,
  elicitation_completed_data, sampling_requested_data, sampling_completed_data,
  mcp_oauth_required_data, mcp_oauth_completed_data, external_tool_requested_data,
  external_tool_completed_data, command_queued_data, command_execute_data, command_completed_data,
  auto_mode_switch_requested_data, auto_mode_switch_completed_data, commands_changed_data,
  capabilities_changed_data, exit_plan_mode_requested_data, exit_plan_mode_completed_data,
  system_notification_data, schedule_rearmed_data, autopilot_objective_changed_data,
  session_limits_changed_data, permissions_changed_data, todos_changed_data, memory_changed_data,
  usage_checkpoint_data, context_cleared_data, fusion_route_started_data, fusion_route_failed_data,
  fusion_resolved_data, fusion_handoff_data, fusion_commit_started_data, fusion_completed_data,
  assistant_turn_retry_data, agent_interrupted_data, fusion_phase_started_data,
  fusion_phase_completed_data, fusion_phase_failed_data, assistant_server_tool_progress_data,
  assistant_tool_call_delta_data, assistant_idle_data, prompt_cache_break_data,
  model_call_finished_data, model_call_start_data, tool_search_activated_data,
  sandbox_decision_data, subagent_configured_data, hook_progress_data, binary_asset_data,
  mcp_headers_refresh_required_data, mcp_headers_refresh_completed_data, ui_ephemeral_query_data,
  session_limits_exhausted_requested_data, session_limits_exhausted_completed_data,
  auto_mode_resolved_data, managed_settings_resolved_data, managed_settings_enforced_data,
  factory_run_updated_data, factory_run_started_data, factory_run_settled_data,
  mcp_list_changed_data, canvas_opened_data, canvas_registry_changed_data, canvas_closed_data,
  canvas_unavailable_data, canvas_recorded_data, canvas_removed_data,
  extensions_attachments_pushed_data, mcp_app_tool_call_complete_data,
}

-- none: the `default`, which keeps the raw JSON
unfoldable pub payload_of : SessionEventType → Option Payload
payload_of session_start = some session_start_data
payload_of session_resume = some session_resume_data
payload_of session_error = some session_error_data
payload_of session_idle = some session_idle_data
payload_of session_info = some session_info_data
payload_of session_model_change = some session_model_change_data
payload_of session_handoff = some session_handoff_data
payload_of session_truncation = some session_truncation_data
payload_of user_message = some user_message_data
payload_of pending_messages_modified = some pending_messages_modified_data
payload_of assistant_turn_start = some assistant_turn_start_data
payload_of assistant_intent = some assistant_intent_data
payload_of assistant_reasoning = some assistant_reasoning_data
payload_of assistant_reasoning_delta = some assistant_reasoning_delta_data
payload_of assistant_message = some assistant_message_data
payload_of assistant_message_delta = some assistant_message_delta_data
payload_of assistant_turn_end = some assistant_turn_end_data
payload_of assistant_usage = some assistant_usage_data
payload_of abort = some abort_data
payload_of tool_user_requested = some tool_user_requested_data
payload_of tool_execution_start = some tool_execution_start_data
payload_of tool_execution_partial_result = some tool_execution_partial_result_data
payload_of tool_execution_complete = some tool_execution_complete_data
payload_of tool_execution_progress = some tool_execution_progress_data
payload_of session_compaction_start = some session_compaction_start_data
payload_of session_compaction_complete = some session_compaction_complete_data
payload_of session_usage_info = some session_usage_info_data
payload_of custom_agent_started = some custom_agent_started_data
payload_of custom_agent_completed = some custom_agent_completed_data
payload_of custom_agent_failed = some custom_agent_failed_data
payload_of custom_agent_selected = some custom_agent_selected_data
payload_of hook_start = some hook_start_data
payload_of hook_end = some hook_end_data
payload_of system_message = some system_message_data
payload_of session_snapshot_rewind = some session_snapshot_rewind_data
payload_of session_shutdown = some session_shutdown_data
payload_of skill_invoked = some skill_invoked_data
payload_of session_remote_steerable_changed = some session_remote_steerable_changed_data
payload_of session_title_changed = some session_title_changed_data
payload_of session_schedule_created = some session_schedule_created_data
payload_of session_schedule_cancelled = some session_schedule_cancelled_data
payload_of session_warning = some session_warning_data
payload_of session_mode_changed = some session_mode_changed_data
payload_of session_plan_changed = some session_plan_changed_data
payload_of session_workspace_file_changed = some session_workspace_file_changed_data
payload_of session_context_changed = some session_context_changed_data
payload_of session_task_complete = some session_task_complete_data
payload_of session_custom_notification = some session_custom_notification_data
payload_of session_tools_updated = some session_tools_updated_data
payload_of session_background_tasks_changed = some session_background_tasks_changed_data
payload_of session_skills_loaded = some session_skills_loaded_data
payload_of session_custom_agents_updated = some session_custom_agents_updated_data
payload_of session_mcp_servers_loaded = some session_mcp_servers_loaded_data
payload_of session_mcp_server_status_changed = some session_mcp_server_status_changed_data
payload_of session_extensions_loaded = some session_extensions_loaded_data
payload_of assistant_streaming_delta = some assistant_streaming_delta_data
payload_of assistant_message_start = some assistant_message_start_data
payload_of model_call_failure = some model_call_failure_data
payload_of subagent_deselected = some subagent_deselected_data
payload_of permission_requested = some permission_requested_data
payload_of permission_completed = some permission_completed_data
payload_of user_input_requested = some user_input_requested_data
payload_of user_input_completed = some user_input_completed_data
payload_of elicitation_requested = some elicitation_requested_data
payload_of elicitation_completed = some elicitation_completed_data
payload_of sampling_requested = some sampling_requested_data
payload_of sampling_completed = some sampling_completed_data
payload_of mcp_oauth_required = some mcp_oauth_required_data
payload_of mcp_oauth_completed = some mcp_oauth_completed_data
payload_of external_tool_requested = some external_tool_requested_data
payload_of external_tool_completed = some external_tool_completed_data
payload_of command_queued = some command_queued_data
payload_of command_execute = some command_execute_data
payload_of command_completed = some command_completed_data
payload_of auto_mode_switch_requested = some auto_mode_switch_requested_data
payload_of auto_mode_switch_completed = some auto_mode_switch_completed_data
payload_of commands_changed = some commands_changed_data
payload_of capabilities_changed = some capabilities_changed_data
payload_of exit_plan_mode_requested = some exit_plan_mode_requested_data
payload_of exit_plan_mode_completed = some exit_plan_mode_completed_data
payload_of system_notification = some system_notification_data
payload_of session_schedule_rearmed = some schedule_rearmed_data
payload_of session_autopilot_objective_changed = some autopilot_objective_changed_data
payload_of session_session_limits_changed = some session_limits_changed_data
payload_of session_permissions_changed = some permissions_changed_data
payload_of session_todos_changed = some todos_changed_data
payload_of session_memory_changed = some memory_changed_data
payload_of session_usage_checkpoint = some usage_checkpoint_data
payload_of session_context_cleared = some context_cleared_data
payload_of session_fusion_route_started = some fusion_route_started_data
payload_of session_fusion_route_failed = some fusion_route_failed_data
payload_of session_fusion_resolved = some fusion_resolved_data
payload_of session_fusion_handoff = some fusion_handoff_data
payload_of session_fusion_commit_started = some fusion_commit_started_data
payload_of session_fusion_completed = some fusion_completed_data
payload_of assistant_turn_retry = some assistant_turn_retry_data
payload_of agent_interrupted = some agent_interrupted_data
payload_of assistant_fusion_phase_started = some fusion_phase_started_data
payload_of assistant_fusion_phase_completed = some fusion_phase_completed_data
payload_of assistant_fusion_phase_failed = some fusion_phase_failed_data
payload_of assistant_server_tool_progress = some assistant_server_tool_progress_data
payload_of assistant_tool_call_delta = some assistant_tool_call_delta_data
payload_of assistant_idle = some assistant_idle_data
payload_of prompt_cache_break = some prompt_cache_break_data
payload_of model_call_finished = some model_call_finished_data
payload_of model_call_start = some model_call_start_data
payload_of tool_search_activated = some tool_search_activated_data
payload_of sandbox_decision = some sandbox_decision_data
payload_of subagent_configured = some subagent_configured_data
payload_of hook_progress = some hook_progress_data
payload_of session_binary_asset = some binary_asset_data
payload_of mcp_headers_refresh_required = some mcp_headers_refresh_required_data
payload_of mcp_headers_refresh_completed = some mcp_headers_refresh_completed_data
payload_of ui_ephemeral_query = some ui_ephemeral_query_data
payload_of session_limits_exhausted_requested = some session_limits_exhausted_requested_data
payload_of session_limits_exhausted_completed = some session_limits_exhausted_completed_data
payload_of session_auto_mode_resolved = some auto_mode_resolved_data
payload_of session_managed_settings_resolved = some managed_settings_resolved_data
payload_of session_managed_settings_enforced = some managed_settings_enforced_data
payload_of factory_run_updated = some factory_run_updated_data
payload_of factory_run_started = some factory_run_started_data
payload_of factory_run_settled = some factory_run_settled_data
payload_of mcp_tools_list_changed = some mcp_list_changed_data
payload_of mcp_resources_list_changed = some mcp_list_changed_data
payload_of mcp_prompts_list_changed = some mcp_list_changed_data
payload_of session_canvas_opened = some canvas_opened_data
payload_of session_canvas_registry_changed = some canvas_registry_changed_data
payload_of session_canvas_closed = some canvas_closed_data
payload_of session_canvas_unavailable = some canvas_unavailable_data
payload_of session_canvas_recorded = some canvas_recorded_data
payload_of session_canvas_removed = some canvas_removed_data
payload_of session_extensions_attachments_pushed = some extensions_attachments_pushed_data
payload_of mcp_app_tool_call_complete = some mcp_app_tool_call_complete_data
payload_of _ = none

-- ===== src/Events/Names.antt =====
-- events.hpp: the names of the event types on the wire, `type_map` of `parse_session_event`.
use copilot_cpp.Prelude.{String, List, [], ◌∷◌}
use copilot_cpp.Events.Types.{
  SessionEventType, session_start, session_resume, session_error, session_idle, session_info,
  session_model_change, session_handoff, session_truncation, user_message,
  pending_messages_modified, assistant_turn_start, assistant_intent, assistant_reasoning,
  assistant_reasoning_delta, assistant_message, assistant_message_delta, assistant_turn_end,
  assistant_usage, abort, tool_user_requested, tool_execution_start, tool_execution_partial_result,
  tool_execution_complete, tool_execution_progress, session_compaction_start,
  session_compaction_complete, session_usage_info, custom_agent_started, custom_agent_completed,
  custom_agent_failed, custom_agent_selected, hook_start, hook_end, system_message,
  session_snapshot_rewind, session_shutdown, skill_invoked, session_remote_steerable_changed,
  session_title_changed, session_schedule_created, session_schedule_cancelled, session_warning,
  session_mode_changed, session_plan_changed, session_workspace_file_changed,
  session_context_changed, session_task_complete, session_custom_notification,
  session_tools_updated, session_background_tasks_changed, session_skills_loaded,
  session_custom_agents_updated, session_mcp_servers_loaded, session_mcp_server_status_changed,
  session_extensions_loaded, assistant_streaming_delta, assistant_message_start, model_call_failure,
  subagent_deselected, permission_requested, permission_completed, user_input_requested,
  user_input_completed, elicitation_requested, elicitation_completed, sampling_requested,
  sampling_completed, mcp_oauth_required, mcp_oauth_completed, external_tool_requested,
  external_tool_completed, command_queued, command_execute, command_completed,
  auto_mode_switch_requested, auto_mode_switch_completed, commands_changed, capabilities_changed,
  exit_plan_mode_requested, exit_plan_mode_completed, system_notification, session_schedule_rearmed,
  session_autopilot_objective_changed, session_session_limits_changed, session_permissions_changed,
  session_todos_changed, session_memory_changed, session_usage_checkpoint, session_context_cleared,
  session_fusion_route_started, session_fusion_route_failed, session_fusion_resolved,
  session_fusion_handoff, session_fusion_commit_started, session_fusion_completed,
  assistant_turn_retry, agent_interrupted, assistant_fusion_phase_started,
  assistant_fusion_phase_completed, assistant_fusion_phase_failed, assistant_server_tool_progress,
  assistant_tool_call_delta, assistant_idle, prompt_cache_break, model_call_finished,
  model_call_start, tool_search_activated, sandbox_decision, subagent_configured, hook_progress,
  session_binary_asset, mcp_headers_refresh_required, mcp_headers_refresh_completed,
  ui_ephemeral_query, session_limits_exhausted_requested, session_limits_exhausted_completed,
  session_auto_mode_resolved, session_managed_settings_resolved, session_managed_settings_enforced,
  factory_run_updated, factory_run_started, factory_run_settled, mcp_tools_list_changed,
  mcp_resources_list_changed, mcp_prompts_list_changed, session_canvas_opened,
  session_canvas_registry_changed, session_canvas_closed, session_canvas_unavailable,
  session_canvas_recorded, session_canvas_removed, session_extensions_attachments_pushed,
  mcp_app_tool_call_complete, session_auto_tier_recommendation, session_auto_tier_switch_failed,
  session_mode_notice_delivered, session_completion_receipt, assistant_fusion_phase_activity,
  permission_carried_forward, permission_message_authorization,
  permission_message_authorization_read, permission_message_authorization_degraded,
  session_mcp_server_removed, session_mcp_server_needs_reconnect, skill_invoked_ref,
  skill_context_delivered, skill_context_delivered_ref,
}

unfoldable pub type_map : List (String × SessionEventType)
type_map =
    ("session.start", session_start)
    ∷ ("session.resume", session_resume)
    ∷ ("session.error", session_error)
    ∷ ("session.idle", session_idle)
    ∷ ("session.info", session_info)
    ∷ ("session.model_change", session_model_change)
    ∷ ("session.handoff", session_handoff)
    ∷ ("session.truncation", session_truncation)
    ∷ ("user.message", user_message)
    ∷ ("pending_messages.modified", pending_messages_modified)
    ∷ ("assistant.turn_start", assistant_turn_start)
    ∷ ("assistant.intent", assistant_intent)
    ∷ ("assistant.reasoning", assistant_reasoning)
    ∷ ("assistant.reasoning_delta", assistant_reasoning_delta)
    ∷ ("assistant.message", assistant_message)
    ∷ ("assistant.message_delta", assistant_message_delta)
    ∷ ("assistant.turn_end", assistant_turn_end)
    ∷ ("assistant.usage", assistant_usage)
    ∷ ("abort", abort)
    ∷ ("tool.user_requested", tool_user_requested)
    ∷ ("tool.execution_start", tool_execution_start)
    ∷ ("tool.execution_partial_result", tool_execution_partial_result)
    ∷ ("tool.execution_complete", tool_execution_complete)
    ∷ ("tool.execution_progress", tool_execution_progress)
    ∷ ("session.compaction_start", session_compaction_start)
    ∷ ("session.compaction_complete", session_compaction_complete)
    ∷ ("session.usage_info", session_usage_info)
    ∷ ("subagent.started", custom_agent_started)
    ∷ ("subagent.completed", custom_agent_completed)
    ∷ ("subagent.failed", custom_agent_failed)
    ∷ ("subagent.selected", custom_agent_selected)
    ∷ ("custom_agent.started", custom_agent_started)
    ∷ ("custom_agent.completed", custom_agent_completed)
    ∷ ("custom_agent.failed", custom_agent_failed)
    ∷ ("custom_agent.selected", custom_agent_selected)
    ∷ ("hook.start", hook_start)
    ∷ ("hook.end", hook_end)
    ∷ ("system.message", system_message)
    ∷ ("session.snapshot_rewind", session_snapshot_rewind)
    ∷ ("session.shutdown", session_shutdown)
    ∷ ("skill.invoked", skill_invoked)
    ∷ ("session.remote_steerable_changed", session_remote_steerable_changed)
    ∷ ("session.title_changed", session_title_changed)
    ∷ ("session.schedule_created", session_schedule_created)
    ∷ ("session.schedule_cancelled", session_schedule_cancelled)
    ∷ ("session.warning", session_warning)
    ∷ ("session.mode_changed", session_mode_changed)
    ∷ ("session.plan_changed", session_plan_changed)
    ∷ ("session.workspace_file_changed", session_workspace_file_changed)
    ∷ ("session.context_changed", session_context_changed)
    ∷ ("session.task_complete", session_task_complete)
    ∷ ("session.custom_notification", session_custom_notification)
    ∷ ("session.tools_updated", session_tools_updated)
    ∷ ("session.background_tasks_changed", session_background_tasks_changed)
    ∷ ("session.skills_loaded", session_skills_loaded)
    ∷ ("session.custom_agents_updated", session_custom_agents_updated)
    ∷ ("session.mcp_servers_loaded", session_mcp_servers_loaded)
    ∷ ("session.mcp_server_status_changed", session_mcp_server_status_changed)
    ∷ ("session.extensions_loaded", session_extensions_loaded)
    ∷ ("assistant.streaming_delta", assistant_streaming_delta)
    ∷ ("assistant.message_start", assistant_message_start)
    ∷ ("model.call_failure", model_call_failure)
    ∷ ("subagent.deselected", subagent_deselected)
    ∷ ("permission.requested", permission_requested)
    ∷ ("permission.completed", permission_completed)
    ∷ ("user_input.requested", user_input_requested)
    ∷ ("user_input.completed", user_input_completed)
    ∷ ("elicitation.requested", elicitation_requested)
    ∷ ("elicitation.completed", elicitation_completed)
    ∷ ("sampling.requested", sampling_requested)
    ∷ ("sampling.completed", sampling_completed)
    ∷ ("mcp.oauth_required", mcp_oauth_required)
    ∷ ("mcp.oauth_completed", mcp_oauth_completed)
    ∷ ("external_tool.requested", external_tool_requested)
    ∷ ("external_tool.completed", external_tool_completed)
    ∷ ("command.queued", command_queued)
    ∷ ("command.execute", command_execute)
    ∷ ("command.completed", command_completed)
    ∷ ("auto_mode_switch.requested", auto_mode_switch_requested)
    ∷ ("auto_mode_switch.completed", auto_mode_switch_completed)
    ∷ ("commands.changed", commands_changed)
    ∷ ("capabilities.changed", capabilities_changed)
    ∷ ("exit_plan_mode.requested", exit_plan_mode_requested)
    ∷ ("exit_plan_mode.completed", exit_plan_mode_completed)
    ∷ ("system.notification", system_notification)
    ∷ ("session.schedule_rearmed", session_schedule_rearmed)
    ∷ ("session.autopilot_objective_changed", session_autopilot_objective_changed)
    ∷ ("session.session_limits_changed", session_session_limits_changed)
    ∷ ("session.permissions_changed", session_permissions_changed)
    ∷ ("session.todos_changed", session_todos_changed)
    ∷ ("session.memory_changed", session_memory_changed)
    ∷ ("session.usage_checkpoint", session_usage_checkpoint)
    ∷ ("session.context_cleared", session_context_cleared)
    ∷ ("session.fusion_route_started", session_fusion_route_started)
    ∷ ("session.fusion_route_failed", session_fusion_route_failed)
    ∷ ("session.fusion_resolved", session_fusion_resolved)
    ∷ ("session.fusion_handoff", session_fusion_handoff)
    ∷ ("session.fusion_commit_started", session_fusion_commit_started)
    ∷ ("session.fusion_completed", session_fusion_completed)
    ∷ ("assistant.turn_retry", assistant_turn_retry)
    ∷ ("agent.interrupted", agent_interrupted)
    ∷ ("assistant.fusion_phase_started", assistant_fusion_phase_started)
    ∷ ("assistant.fusion_phase_completed", assistant_fusion_phase_completed)
    ∷ ("assistant.fusion_phase_failed", assistant_fusion_phase_failed)
    ∷ ("assistant.server_tool_progress", assistant_server_tool_progress)
    ∷ ("assistant.tool_call_delta", assistant_tool_call_delta)
    ∷ ("assistant.idle", assistant_idle)
    ∷ ("prompt_cache_break", prompt_cache_break)
    ∷ ("model.call_finished", model_call_finished)
    ∷ ("model.call_start", model_call_start)
    ∷ ("tool_search.activated", tool_search_activated)
    ∷ ("sandbox.decision", sandbox_decision)
    ∷ ("subagent.configured", subagent_configured)
    ∷ ("hook.progress", hook_progress)
    ∷ ("session.binary_asset", session_binary_asset)
    ∷ ("mcp.headers_refresh_required", mcp_headers_refresh_required)
    ∷ ("mcp.headers_refresh_completed", mcp_headers_refresh_completed)
    ∷ ("ui.ephemeral_query", ui_ephemeral_query)
    ∷ ("session_limits_exhausted.requested", session_limits_exhausted_requested)
    ∷ ("session_limits_exhausted.completed", session_limits_exhausted_completed)
    ∷ ("session.auto_mode_resolved", session_auto_mode_resolved)
    ∷ ("session.managed_settings_resolved", session_managed_settings_resolved)
    ∷ ("session.managed_settings_enforced", session_managed_settings_enforced)
    ∷ ("factory.run_updated", factory_run_updated)
    ∷ ("factory.run_started", factory_run_started)
    ∷ ("factory.run_settled", factory_run_settled)
    ∷ ("mcp.tools.list_changed", mcp_tools_list_changed)
    ∷ ("mcp.resources.list_changed", mcp_resources_list_changed)
    ∷ ("mcp.prompts.list_changed", mcp_prompts_list_changed)
    ∷ ("session.canvas.opened", session_canvas_opened)
    ∷ ("session.canvas.registry_changed", session_canvas_registry_changed)
    ∷ ("session.canvas.closed", session_canvas_closed)
    ∷ ("session.canvas.unavailable", session_canvas_unavailable)
    ∷ ("session.canvas.recorded", session_canvas_recorded)
    ∷ ("session.canvas.removed", session_canvas_removed)
    ∷ ("session.extensions.attachments_pushed", session_extensions_attachments_pushed)
    ∷ ("mcp_app.tool_call_complete", mcp_app_tool_call_complete)
    ∷ ("session.auto_tier_recommendation", session_auto_tier_recommendation)
    ∷ ("session.auto_tier_switch_failed", session_auto_tier_switch_failed)
    ∷ ("session.mode_notice_delivered", session_mode_notice_delivered)
    ∷ ("session.completion_receipt", session_completion_receipt)
    ∷ ("assistant.fusion_phase_activity", assistant_fusion_phase_activity)
    ∷ ("permission.carriedForward", permission_carried_forward)
    ∷ ("permission.messageAuthorization", permission_message_authorization)
    ∷ ("permission.messageAuthorizationRead", permission_message_authorization_read)
    ∷ ("permission.messageAuthorizationDegraded", permission_message_authorization_degraded)
    ∷ ("session.mcp_server_removed", session_mcp_server_removed)
    ∷ ("session.mcp_server_needs_reconnect", session_mcp_server_needs_reconnect)
    ∷ ("skill.invoked_ref", skill_invoked_ref)
    ∷ ("skill.context_delivered", skill_context_delivered)
    ∷ ("skill.context_delivered_ref", skill_context_delivered_ref)
    ∷ []

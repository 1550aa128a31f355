-- ===== src/Agent/Payloads.antt =====
-- What internal/agent/verify.go and brief.go read from a record's payload.
mod Pods
mod Deployments
mod Cluster
mod Metrics
mod Traces
pub use Pods.{ImagePullPod}
unfoldable pub use Pods.{
  pods_show_oom, pod_waiting_for_image, orders_crash_loop_pod, payments_pod_is_ready,
}
pub use Deployments.{DeploymentImage}
unfoldable pub use Deployments.{
  deployment_memory_limit, orders_deployment_image, deployment_runtime_value,
  deployment_references_orders_config,
}
unfoldable pub use Cluster.{
  events_show_failed_pull, orders_config_is_unsupported, logs_show_invalid_order_mode,
  payments_service_selector, payment_endpoint_slices_are_empty,
}
pub use Metrics.{Floats}
unfoldable pub use Metrics.{
  metric_parameter, prometheus_range_has_sample_at_least, prometheus_range_has_positive_sample,
}
pub use Traces.{TraceSpan}
unfoldable pub use Traces.{
  project_trace, trace_shows_slow_successful_checkout, trace_shows_payment_failure,
}

-- ===== src/Conditions.antt =====
-- pkg/condition/condition.go: the reports that the controllers make about a resource. The time
-- `ObservedAt`, which no modelled code reads, is left out.
pub mod Publisher
use blipblop.Base.{ℕ, Text, Option, none, some, [], codes}
use blipblop.Labels.{Label}
use blipblop.Api.{Meta}

pub data Kind : Type 0 where
  runtime_ready image_ready volume_ready network_ready task_ready task_scheduled : Kind
  node_ready : Kind

pub data Reason : Type 0 where
  pulling pulled pull_failed attaching attached attach_failed detaching detached : Reason
  detach_failed creating created create_failed starting started start_failed running : Reason
  run_failed stopping stopped stop_failed deleting deleted delete_failed scheduling : Reason
  scheduled scheduling_failed connecting connected connection_failed disconnecting : Reason
  disconnected disconnt_failed upgrading upgraded upgrade_failed unhealthy ready unknown : Reason

-- the strings behind the constants
unfoldable pub kind_text : Kind → Text
kind_text runtime_ready = codes "RuntimeReady"
kind_text image_ready = codes "ImageReady"
kind_text volume_ready = codes "VolumeReady"
kind_text network_ready = codes "NetworkReady"
kind_text task_ready = codes "TaskReady"
kind_text task_scheduled = codes "TaskScheduled"
kind_text node_ready = codes "NodeReady"

unfoldable pub reason_text : Reason → Text
reason_text pulling = codes "Pulling"
reason_text pulled = codes "Pulled"
reason_text pull_failed = codes "PullFailed"
reason_text attaching = codes "Attaching"
reason_text attached = codes "Attached"
reason_text attach_failed = codes "AttachFailed"
reason_text detaching = codes "Detaching"
reason_text detached = codes "Detached"
reason_text detach_failed = codes "DetachFailed"
reason_text creating = codes "Creating"
reason_text created = codes "Created"
reason_text create_failed = codes "CreateFailed"
reason_text starting = codes "Starting"
reason_text started = codes "Started"
reason_text start_failed = codes "StartFailed"
reason_text running = codes "Running"
reason_text run_failed = codes "RunFailed"
reason_text stopping = codes "Stopping"
reason_text stopped = codes "Stopped"
reason_text stop_failed = codes "StopFailed"
reason_text deleting = codes "Deleting"
reason_text deleted = codes "Deleted"
reason_text delete_failed = codes "FailedFailed"
reason_text scheduling = codes "Scheduling"
reason_text scheduled = codes "Scheduled"
reason_text scheduling_failed = codes "SchedulingFailed"
reason_text connecting = codes "Connecting"
reason_text connected = codes "Connected"
reason_text connection_failed = codes "ConnectionFailed"
reason_text disconnecting = codes "Disconnecting"
reason_text disconnected = codes "Disconnected"
reason_text disconnt_failed = codes "DisconnectFailed"
reason_text upgrading = codes "Upgrading"
reason_text upgraded = codes "Upgraded"
reason_text upgrade_failed = codes "UpgradeFailed"
reason_text unhealthy = codes "Unhealthy"
reason_text ready = codes "Ready"
reason_text unknown = codes "Unknown"

pub data Status : Type 0 where
  unknown_status true_status false_status : Status

-- `typesv1.ConditionReport`: a new one has the zero values, an empty type and an unknown status.
pub record Report : Type 0 where
  pub resource_id : Text
  pub observed_generation : ℕ
  pub reporter : Text
  pub kind : Text
  pub status : Status
  pub reason : Text
  pub msg : Text
  pub metadata : Label

abbrev pub new_report : Text → ℕ → Report
new_report resource_id gen = record {
  resource_id = resource_id;
  observed_generation = gen;
  reporter = [];
  kind = [];
  status = unknown_status;
  reason = [];
  msg = [];
  metadata = [];
}

abbrev pub new_for_resource : Meta → Report
new_for_resource meta = new_report meta.uid meta.resource_version

abbrev pub as_reporter : Text → Report → Report
as_reporter name r = record r { reporter = name }

abbrev pub of_kind : Kind → Report → Report
of_kind k r = record r { kind = kind_text k }

abbrev pub with_metadata : Label → Report → Report
with_metadata m r = record r { metadata = m }

-- An argument that is not given leaves the message as it was.
abbrev pub set_msg : Option Text → Report → Report
set_msg none r = r
set_msg (some m) r = record r { msg = m }

abbrev pub is_true : Reason → Option Text → Report → Report
is_true reason msg r = set_msg msg (record r { status = true_status; reason = reason_text reason })

abbrev pub is_false : Reason → Option Text → Report → Report
is_false reason msg r =
    set_msg msg (record r { status = false_status; reason = reason_text reason })

abbrev pub in_progress : Reason → Text → Report → Report
in_progress reason msg r = record r {
  status = unknown_status;
  reason = reason_text reason;
  msg = msg;
}

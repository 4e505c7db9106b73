-- ===== src/Plugin/Tests.antt =====
-- Registering threads under the cyclic policy.
use workhorse_rt.Common.{arith, none, ◌==◌, if◌then◌else◌}
use workhorse_rt.Bitmap.{Bitmap}
use workhorse_rt.Bitmap.Bytes.{IsBytes}
use workhorse_rt.Kernel.Sample.{system, config, no_bits, no_callbacks, a_domain}
use workhorse_rt.Sched.Policy.{Policy}
use workhorse_rt.Plugin.{Port, ThreadParam, LsrParam, DomainParam, admit}
use workhorse_rt.Plugin.Thread.{Admitted, admit-Admitted}

-- A port that takes every task.
abbrev port : Port
port = record {
  thread_info_init = λ a. none;
  lsr_info_init = λ a. none;
  domain_info_init = λ a. none;
}

abbrev second_frame : Bitmap
second_frame i = if i == 0 then 2 else 0

abbrev param : ThreadParam
param = record {
  cpu_id = 0;
  dom_id = 0;
  task_id = 4;
  budget = 3;
  period = 6;
  param_rr = record { timeslice_ticks = 2; prio = 1 };
  param_cyclic = record { frame_bmp = second_frame; timeslice_ticks = 2 };
  virtual_deadline = 5;
  arch_param = 0;
  callbacks = no_callbacks;
}

no_frames : IsBytes no_bits
no_frames = λ i. omega arith

admit-Admitted_example :
    Admitted config port param system Policy.cyclic
      (admit config Policy.cyclic port Policy.cyclic param system)
admit-Admitted_example =
    admit-Admitted config Policy.cyclic port param system Policy.cyclic no_frames

abbrev third_domain : DomainParam
third_domain = record {
  dom_id = 2;
  invocation_info = (a_domain 2 no_bits).invocation_info;
  arch_param = 0;
}

abbrev lsr_param : LsrParam
lsr_param = record { cpu_id = 0; dom_id = 1; task_id = 5; arch_param = 0; callbacks = no_callbacks }

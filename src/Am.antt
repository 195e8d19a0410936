-- ===== src/Am.antt =====
-- am/include/am.h: the events that every target reports.
use openperf_abstract_machin.Prelude.{ℕ}

-- `Event` less its `msg`, a text that no code reads.
pub data EventKind : Type 0 where
  event_null : EventKind
  event_yield : EventKind
  event_syscall : EventKind
  event_pagefault : EventKind
  event_error : EventKind
  event_irq_timer : EventKind
  event_irq_iodev : EventKind

pub record EventInfo : Type 0 where
  pub event : EventKind
  pub cause : ℕ
  pub ref : ℕ

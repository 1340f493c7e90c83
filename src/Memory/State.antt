-- ===== src/Memory/State.antt =====
-- The state of `GuestMemory` (src/cpu/espresso/guest_memory.hpp). A byte is a number; the sparse
-- table of page generations is a function, 0 at a page that is not in the table. Of the register
-- source of the watchpoint, a pointer, the model has whether it is set, and of an event whether it
-- has a snapshot of the registers: what is in the snapshot is left out.
use affogato.Base.{Bool, false, ℕ, ◌+◌, ◌-◌, ◌/◌, List, [], Option, none, replicate}

pub record MappedRegion : Type 0 where
  pub address : ℕ
  pub bytes : List ℕ

pub record AliasRegion : Type 0 where
  pub address : ℕ
  pub target : ℕ
  pub size : ℕ

pub record WriteWatchEvent : Type 0 where
  pub writer_cia : ℕ
  pub access_address : ℕ
  pub access_width : ℕ
  pub watched_address : ℕ
  pub watched_width : ℕ
  pub watched_value : ℕ
  pub has_gpr_snapshot : Bool

pub record GuestMemory : Type 0 where
  pub bytes : List ℕ
  pub mapped_regions : List MappedRegion
  pub aliases : List AliasRegion
  pub flat_page_write_generations : List ℕ
  pub sparse_page_write_generations : ℕ → ℕ
  pub write_generation : ℕ
  pub write_watchpoint : Option (ℕ × ℕ)
  pub write_watch_gpr_source : Bool
  pub write_watch_events : List WriteWatchEvent
  pub current_guest_cia : ℕ

abbrev pub guest_page_size : ℕ
guest_page_size = 0x1000

abbrev pub write_watch_event_capacity : ℕ
write_watch_event_capacity = 256

-- The constructor.
unfoldable pub new : ℕ → GuestMemory
new size = record {
  bytes = replicate size 0;
  mapped_regions = [];
  aliases = [];
  flat_page_write_generations = replicate ((size + guest_page_size - 1) / guest_page_size) 0;
  sparse_page_write_generations = λ page. 0;
  write_generation = 0;
  write_watchpoint = none;
  write_watch_gpr_source = false;
  write_watch_events = [];
  current_guest_cia = 0;
}

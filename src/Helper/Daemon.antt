-- ===== src/Helper/Daemon.antt =====
-- `daemonRequest` of src/main/helper/daemon-client.ts: one connection to the daemon as a machine of
-- the events of its socket and its timer. `JSON.parse` of a line is a parameter.
pub mod Settlement
use katacomb_vpn.Prelude.{
  ℕ, zero, suc, ◌+◌, ◌-◌, ◌*◌, ◌/◌, ◌%◌, ◌≤◌, ◌<◌, ◌≡◌, refl, sym, ap, ◌∙◌, subst, ◌≢◌, ◌↔◌, ◌⊎◌,
  inl, inr, Bool, true, false, not, ◌&&◌, ◌||◌, Option, none, some, List, [], ◌∷◌, ◌++◌, map, arith,
  ltb, leb, ◌==◌, if◌then◌else◌, ltb→lt, lt→ltb, leb→le, le→leb, ==_iff, tests, Bool-cases,
  Option-cases, is_none, is_some, unless_thrown, unless_thrown-ok, Result, ok, err, Result-cases,
  length, length-filter, filter, find, any, all, All, Mem, All-mem, All-of-mem, mem-filter,
  mem-of-filter,
}
use katacomb_vpn.Guard.Text.{
  onto_cut, trim_start, trim_end, before_trimmed, onto_first, join_with, Text, codes, is_empty,
  same_text, one_of, is_space, trim, to_lower, split_at, cut_first, cut_last, starts_with,
  strip_prefix, drop_optional, span, is_digit, is_letter, is_hex, is_number, value_of, between,
  same_text→≡, one_of→Mem, one_of-append,
}

pub record Response : Type 0 where
  pub is_ok : Bool

pub data Rejection : Type 0 where
  unreachable timed_out malformed_response op_failed transport_failed : Rejection

pub data Settled : Type 0 where
  resolved : Settled
  rejected : Rejection → Settled

pub record Call : Type 0 where
  pub connected : Bool
  -- Whether the request was written to the socket.
  pub sent : Bool
  pub buf : Text
  pub settled : Option Settled

pub data Event : Type 0 where
  connects : Event
  data_comes : Text → Event
  socket_error : Event
  timer_fires : Event

abbrev pub opened : Call
opened = record { connected = false; sent = false; buf = []; settled = none }

-- `finish`.
abbrev pub finish : Settled → Call → Call
finish o c = elim c.settled [ some _ ↦ c | none ↦ record c { settled = some o } ]

module _ (parse : Text → Option Response) where
  abbrev pub answer_of : Option Response → Settled
  answer_of none = rejected malformed_response
  answer_of (some r) = if r.is_ok then resolved else rejected op_failed

  abbrev pub read_line : Call → Option (Text × Text) → Call
  read_line c none = c
  read_line c (some (line, rest)) = finish (answer_of (parse line)) c

  -- What follows an event.
  unfoldable pub handle : Event → Call → Call
  handle connects c = record c { connected = true; sent = true }
  handle (data_comes chunk) c =
      read_line (record c { buf = c.buf ++ chunk }) (cut_first 10 (c.buf ++ chunk))
  handle socket_error c =
      finish (if c.connected then rejected transport_failed else rejected unreachable) c
  handle timer_fires c = finish (if c.connected then rejected timed_out else rejected unreachable) c

  -- A socket that `finish` destroyed does not connect any more; of the other events it is not
  -- assumed that they stay away.
  abbrev pub may_connect : Event → Call → Bool
  may_connect connects c = is_none c.settled
  may_connect _ c = true

  unfoldable pub step : Event → Call → Call
  step e c = if may_connect e c then handle e c else c

  unfoldable pub run : List Event → Call → Call
  run [] c = c
  run (e ∷ es) c = run es (step e c)

  -- `daemonRequest`: where a list of events leaves the call.
  abbrev pub daemon_request : List Event → Call
  daemon_request es = run es opened

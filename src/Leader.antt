-- ===== src/Leader.antt =====
-- src/pyinfraboxutils/leader.py: the election of a leader among the instances of a service. The table
-- `leader_election` has the primary key `service_name` (src/db/migrations/00007.sql).
use infrabox.Prelude.{
  String, Bool, ℕ, List, if◌then◌else◌, ◌∷◌, Option, ◌≡◌, ltb, true, none, ◌+◌, ◌==◌, some, arith,
  eq_iff, [], refl, false,
}

pub record Seat : Type 0 where
  pub service_name : String
  pub last_seen_active : ℕ

-- The DO UPDATE of a row that the INSERT conflicts with. Both assignments see the row as it was.
unfoldable pub take_over : String → ℕ → Seat → Seat
take_over service_name now seat = record {
  service_name = if ltb (seat.last_seen_active + 30) now then service_name else seat.service_name;
  last_seen_active = if seat.service_name == service_name then now else seat.last_seen_active;
}

-- INSERT ... ON CONFLICT (service_name) ... RETURNING service_name = %s
unfoldable pub upsert : String → ℕ → List Seat → List Seat × Bool
upsert service_name now [] =
    (record { service_name = service_name; last_seen_active = now } ∷ [], true)
upsert service_name now (seat ∷ seats) =
    let (rest, answer) = upsert service_name now seats in
    if seat.service_name == service_name
    then (
      take_over service_name now seat ∷ seats,
      (take_over service_name now seat).service_name == service_name,
    )
    else (seat ∷ rest, answer)

-- `disabled` is the setting INFRABOX_DISABLE_LEADER_ELECTION.
unfoldable pub _is_leader : Bool → String → ℕ → List Seat → List Seat × Bool
_is_leader disabled service_name now seats =
    if disabled then (seats, true) else upsert service_name now seats

pub data Exit : Type 0 where
  goes_on exits : Exit

unfoldable pub is_leader : Bool → String → ℕ → List Seat → List Seat × Exit
is_leader disabled service_name now seats =
    let (seats', leader) = _is_leader disabled service_name now seats in
    (seats', if leader then goes_on else exits)

-- `elect_leader`, with the times of its rounds; none if it has not ended by the last.
unfoldable pub elect_leader : Bool → String → List ℕ → List Seat → Option (List Seat)
elect_leader disabled service_name [] seats = none
elect_leader disabled service_name (now ∷ later) seats =
    let rest =
      elect_leader disabled service_name later (_is_leader disabled service_name now seats).0 in
    if (_is_leader disabled service_name now seats).1
    then some (_is_leader disabled service_name now seats).0
    else rest

-- The conflict is on the very name that the instance brings, so the row that is kept has that name too.
upsert-true :
    (service_name : String) (now : ℕ) (seats : List Seat) → (upsert service_name now seats).1 ≡ true
unfolding upsert take_over
upsert-true service_name now [] = refl
upsert-true service_name now (seat ∷ seats) = ground (
  arith,
  upsert-true service_name now seats,
  eq_iff seat.service_name service_name,
  eq_iff service_name service_name,
)

-- An instance that asks under the name of its service is told that it leads, whatever the table holds
-- and whoever asked before: `elect_leader` ends in its first round, and `is_leader` never exits.
pub elect_leader-void :
    (disabled : Bool) (service_name : String) (now : ℕ) (later : List ℕ) (seats : List Seat)
    → ((is_leader disabled service_name now seats).1 ≡ goes_on)
      × (elect_leader disabled service_name (now ∷ later) seats
          ≡ some (_is_leader disabled service_name now seats).0)
unfolding is_leader elect_leader _is_leader
elect_leader-void true service_name now later seats = (refl, refl)
elect_leader-void false service_name now later seats =
    let leads = upsert-true service_name now seats in (rw leads refl, rw leads refl)

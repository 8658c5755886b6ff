-- ===== src/EventOps/Reads/Created.antt =====
-- contracts/events/src/event_ops.rs: `get_event` after `create_event`.
use boundless_contract.Base.{◌≢◌, refl, ℕ, ◌≡◌, arith, inl, inr}
use boundless_contract.Types.{OpId, CreateEventParams, EventRecord, crowdfunding, active}
use boundless_contract.Base.Int.{pos}
use boundless_contract.Host.{ok, Result-cases}
use boundless_contract.Chain.{State, Env, focus}
use boundless_contract.EventOps.Create.{create_event, new_record}
use boundless_contract.EventOps.Solvency.Creating.{create_event-Opened}
use boundless_contract.EventOps.Reads.{get_event}

-- The record of an event made at `now` of the parameters `p`, before anything happened to it.
pub record IsOf (p : CreateEventParams) (now id : ℕ) (r : EventRecord) : Type 0 where
  pub ident : r.id ≡ id
  pub pillar : r.pillar ≡ p.pillar
  pub owner : r.owner ≡ p.owner
  pub token : r.token ≡ p.token
  pub total_budget : r.total_budget ≡ p.total_budget
  pub escrow_of_campaign : p.pillar ≡ crowdfunding → r.remaining_escrow ≡ pos 0
  pub escrow_of_other : p.pillar ≢ crowdfunding → r.remaining_escrow ≡ p.total_budget
  pub release_kind : r.release_kind ≡ p.release_kind
  pub status : r.status ≡ active
  pub content_uri : r.content_uri ≡ p.content_uri
  pub title : r.title ≡ p.title
  pub created_at : r.created_at ≡ now
  pub deadline : r.deadline ≡ p.deadline
  pub prize_floors : r.prize_floors ≡ p.prize_floors
  pub fee_bps_override : r.fee_bps_override ≡ p.fee_bps_override

new_record-IsOf : (p : CreateEventParams) (now id : ℕ) → IsOf p now id (new_record p now id)
new_record-IsOf p now id = record {
  ident = refl;
  pillar = refl;
  owner = refl;
  token = refl;
  total_budget = refl;
  escrow_of_campaign = λ h. ground arith;
  escrow_of_other = λ h. ground arith;
  release_kind = refl;
  status = refl;
  content_uri = refl;
  title = refl;
  created_at = refl;
  deadline = refl;
  prize_floors = refl;
  fee_bps_override = refl;
}

-- What `create_event` was given is what `get_event` reads back under the id that it returned, in the
-- state that it left: the parameters, in an active event made at the time of the call, with the whole
-- budget as escrow, or none for a campaign.
pub create_event-get_event :
    (p : CreateEventParams) (op : OpId) (e e' : Env) (s : State) {id : ℕ} {t : State}
    → create_event p op e s ≡ ok (id, t)
    → (r : EventRecord) × (u : State) × (get_event id e' t ≡ ok (r, u)) × IsOf p e.timestamp id r
unfolding get_event focus
create_event-get_event p op e e' s {id} {t} h =
    let (_, _, opened, _, _) = create_event-Opened p op e s h in
    elim (Result-cases (get_event id e' t)) [
      | inl ((r, u), k) ↦
          let same : r ≡ new_record p e.timestamp id = ground (arith, opened.event_after) in
          (r, u, k, rw same (new_record-IsOf p e.timestamp id))
      | inr (inl (x, k)) ↦ absurd (ground (arith, opened.event_after))
      | inr (inr k) ↦ absurd (ground (arith, opened.event_after))
    ]

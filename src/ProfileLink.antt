-- ===== src/ProfileLink.antt =====
-- contracts/events/src/profile_client.rs against contracts/profile: what the calls that the events
-- contract makes do in the profile contract.
use boundless_contract.Base.{
  ℕ, ◌+◌, ◌≤◌, ◌<◌, ◌≡◌, ◌≢◌, false, some, unwrap_or, List, [], ◌∷◌, ◌++◌, ◌==◌, arith,
}
use boundless_contract.Base.Int.{ℤ, pos, ◌<ℤ◌, i128_max, checked_add-pos, checked_sub}
use boundless_contract.Base.Word.{saturating_add64}
use boundless_contract.Types.{Address, OpId, Text, EventRecord, Winner, PrizeAward}
use boundless_contract.Chain.{
  lives, Env, State, ProfileCall, bootstrap, bump_reputation, register_earnings, ok, focus, current,
}
use boundless_contract.Escrow.{release}
use boundless_contract.Idempotency.{
  derive_child, derive_child_indexed, bootstrap_tag, bump_rep_tag, register_earnings_tag,
}
use boundless_contract.Profile.{report}
use boundless_contract.Grant.Shares.{release_owed}
use boundless_contract.EventOps.Claim.{claim_prize, win_reason}
use boundless_contract.EventOps.Claim.Settled.{claim_prize-Claimed_found}
use boundless_contract.ProfileContract.Data.{ProfileState}
use boundless_contract.ProfileContract.Scores
use boundless_contract.ProfileContract.Requests.{
  attempt, serve, bootstrap_request, bump_reputation_request, register_earnings_request,
}
use boundless_contract.ProfileContract.Requests.Book.{reputation_of}

-- What the host shows the callee: the caller has authorized the call that it makes itself, and these
-- calls need no other signature.
abbrev pub called : Address → Env → Env
called at e = record e {
  current_contract_address = at;
  authorized = λ a. a == e.current_contract_address;
}

-- A `try_` call: one that fails leaves the profile contract as it was.
unfoldable pub deliver : Env → Address × ProfileCall → ProfileState → ProfileState
deliver e (at, bootstrap u op) s = attempt (called at e) (bootstrap_request u op) s
deliver e (at, bump_reputation u d why op) s =
    attempt (called at e) (bump_reputation_request u d why op) s
deliver e (at, register_earnings u t a op) s =
    attempt (called at e) (register_earnings_request u t a op) s

-- The calls of a log, newest first, in the order in which they were made.
unfoldable pub deliver_all : Env → List (Address × ProfileCall) → ProfileState → ProfileState
deliver_all e [] s = s
deliver_all e (c ∷ earlier) s = deliver e c (deliver_all e earlier s)

-- The id that `derive_child` gives a call.
abbrev pub child : Env → Address → Address → OpId → ℕ → OpId
child e callee domain op tag =
    e.sha256 (e.to_array op ++ tag ∷ 0 ∷ e.to_xdr callee ++ e.to_xdr domain)

-- The three calls of a payout, newest first.
abbrev pub reported :
    Env → Address → Address → OpId → Address → ℕ → Text → Address → ℤ → List (Address × ProfileCall)
reported e callee domain op who bump why token a =
    (callee, register_earnings who token a (child e callee domain op register_earnings_tag))
    ∷ (callee, bump_reputation who bump why (child e callee domain op bump_rep_tag))
    ∷ (callee, bootstrap who (child e callee domain op bootstrap_tag))
    ∷ []

-- The profile contract takes calls of the events contract `events`, and has seen none of the ids.
pub record IsOpen (e : Env) (events : Address) (i j k : OpId) (s : ProfileState) : Type 0 where
  pub bound : s.events_contract ≡ some events
  pub unpaused : unwrap_or s.paused false ≡ false
  pub fresh_i : lives e (s.op_seen events i) ≡ false
  pub fresh_j : lives e (s.op_seen events j) ≡ false
  pub fresh_k : lives e (s.op_seen events k) ≡ false
  pub apart_ij : i ≢ j
  pub apart_ik : i ≢ k
  pub apart_jk : j ≢ k

module _ (e : Env) (callee who token : Address) (i j k : OpId) (bump x y : ℕ) (why : Text)
    (s : ProfileState) (o : IsOpen e e.current_contract_address i j k s) (small : bump ≤ 100)
    (held : unwrap_or (s.earnings_by_token who token) (pos 0) ≡ pos y) (positive : 0 < x)
    (fits : y + x ≤ i128_max) where
  abbrev calls : List (Address × ProfileCall)
  calls =
      (callee, register_earnings who token (pos x) k)
      ∷ (callee, bump_reputation who bump why j)
      ∷ (callee, bootstrap who i)
      ∷ []

  delivered_score :
      reputation_of ((deliver_all e calls s).profile who)
      ≡ some (saturating_add64 (unwrap_or (reputation_of (s.profile who)) 0) bump)
  unfolding deliver_all deliver attempt serve Scores.bootstrap Scores.bump Scores.register
  delivered_score = let sum = checked_add-pos y x fits in ground (arith, sum)

  delivered_earnings :
      unwrap_or ((deliver_all e calls s).earnings_by_token who token) (pos 0) ≡ pos (y + x)
  unfolding deliver_all deliver attempt serve Scores.bootstrap Scores.bump Scores.register
  delivered_earnings = let sum = checked_add-pos y x fits in ground (arith, sum)

claim_prize-reported :
    (id p : ℕ) (op : OpId) (e : Env) (s : State) (r : EventRecord) (a : PrizeAward) (w : Winner)
    (callee : Address) (left : ℤ) {s' : State}
    → (s.events id).event ≡ some (current r)
    → (s.events id).prize_award p ≡ some a
    → (s.events id).winner_at a.anchor_idx ≡ some w
    → s.config.profile_contract ≡ some callee
    → checked_sub (unwrap_or (s.events id).owed_total (pos 0)) w.amount ≡ some left
    → claim_prize id p op e s ≡ ok (tt, s')
    → s'.profile_calls
      ≡ reported e callee a.recipient op a.recipient a.reputation_bump win_reason r.token w.amount
        ++ s.profile_calls
unfolding claim_prize focus release release_owed report derive_child derive_child_indexed
claim_prize-reported id p op e s r a w callee left he ha hw hc ho h = ground arith

-- A prize that is claimed counts for its winner: where the profile contract takes calls of the events
-- contract and has seen none of the three ids that the claim derives, which differ, the calls that the
-- claim makes raise the winner's reputation by the award's bump, from 0 if there was no profile, and
-- their earnings in the event's token by the amount. The other premises are the event, award and row
-- that are stored, that the log of calls begins empty, and that the new total is an `i128`.
pub claim_prize-credits :
    (id p : ℕ) (op : OpId) (e : Env) (s : State) (r : EventRecord) (a : PrizeAward) (w : Winner)
    (callee : Address) (x y : ℕ) (users : ProfileState) {s' : State}
    → claim_prize id p op e s ≡ ok (tt, s')
    → (s.events id).event ≡ some (current r)
    → (s.events id).prize_award p ≡ some a
    → (s.events id).winner_at a.anchor_idx ≡ some w
    → w.amount ≡ pos x
    → a.reputation_bump ≤ 100
    → s.config.profile_contract ≡ some callee
    → s.profile_calls ≡ []
    → IsOpen e e.current_contract_address
        (child e callee a.recipient op bootstrap_tag)
        (child e callee a.recipient op bump_rep_tag)
        (child e callee a.recipient op register_earnings_tag)
        users
    → unwrap_or (users.earnings_by_token a.recipient r.token) (pos 0) ≡ pos y
    → y + x ≤ i128_max
    → (reputation_of ((deliver_all e s'.profile_calls users).profile a.recipient)
        ≡ some (
            saturating_add64
              (unwrap_or (reputation_of (users.profile a.recipient)) 0)
              a.reputation_bump))
      × (unwrap_or
            ((deliver_all e s'.profile_calls users).earnings_by_token a.recipient r.token)
            (pos 0)
          ≡ pos (y + x))
claim_prize-credits id p op e s r a w callee x y users {s'} h he ha hw hx small hc none_yet open_ hy
      fits =
    let (left, c) = claim_prize-Claimed_found id p op e s r a w he ha hw h in
    let log = claim_prize-reported id p op e s r a w callee left he ha hw hc c.owed h in
    let made : s'.profile_calls
        ≡ reported e callee a.recipient op a.recipient a.reputation_bump win_reason r.token
            (pos x) =
      rw (log, hx, none_yet) in
    let i = child e callee a.recipient op bootstrap_tag in
    let j = child e callee a.recipient op bump_rep_tag in
    let k = child e callee a.recipient op register_earnings_tag in
    let worth : pos 0 <ℤ pos x = rw hx at c.positive in
    let positive : 0 < x = omega arith in
    (
      rw made (
          delivered_score e callee a.recipient r.token i j k a.reputation_bump x y win_reason users
            open_ small hy positive fits),
      rw made (
          delivered_earnings e callee a.recipient r.token i j k a.reputation_bump x y win_reason
            users open_ small hy positive fits),
    )

-- ===== src/Escrow/Fees.antt =====
-- contracts/events/src/escrow.rs: how the fee divides the money that moves.
use boundless_contract.Base.{
  ℕ, if◌then◌else◌, ◌+◌, ◌-◌, ◌*◌, ◌/◌, ◌≤◌, ◌≡◌, ◌≢◌, some, arith, min, List, ◌∷◌,
}
use boundless_contract.Base.Int.{
  ℤ, pos, ◌+ℤ◌, ◌-ℤ◌, i128_max, int_laws, saturating_mul-pos, saturating_sub, saturating_add, ltb_ℤ,
  saturating_add-pos, saturating_sub-pos,
}
use boundless_contract.Types.{Address}
use boundless_contract.Chain.{Env, State, Transfer, ok}
use boundless_contract.Custody.{balance, balance-in, balance-out, leg}
use boundless_contract.Escrow.{compute_fee_at, deposit_with_fee_at, release_with_fee_at}

-- The fee on an amount that does not overflow is its basis points, rounded down.
pub compute_fee_at-pos :
    (a bps : ℕ) → a * bps ≤ i128_max → compute_fee_at (pos a) bps ≡ pos (a * bps / 10000)
unfolding compute_fee_at
compute_fee_at-pos a bps h = rw (saturating_mul-pos a bps) (ground arith)

-- A fee of at most 1,000 basis points is not negative and at most the amount, also where the product
-- saturates.
pub compute_fee_at_bounds :
    (a bps : ℕ) → bps ≤ 1000 → (f : ℕ) × (compute_fee_at (pos a) bps ≡ pos f) × (f ≤ a)
unfolding compute_fee_at
compute_fee_at_bounds a bps h =
    (min (a * bps) i128_max / 10000, rw (saturating_mul-pos a bps), fee_le a bps h)
  where
    fee_le : (a bps : ℕ) → bps ≤ 1000 → min (a * bps) i128_max / 10000 ≤ a
    fee_le a bps h = grind arith

-- The transfers of a release: the net amount to the recipient, then the fee, each if it is positive.
abbrev released : Env → Address → Address → Address → ℤ → ℤ → List Transfer → List Transfer
released e token who account net fee log =
    let paid =
      if ltb_ℤ (pos 0) net then leg token e.current_contract_address who net ∷ log else log in
    if ltb_ℤ (pos 0) fee then leg token e.current_contract_address account fee ∷ paid else paid

pub transfers-release_with_fee_at :
    (e : Env) (s : State) (token who account : Address) (a : ℤ) (bps : ℕ) {s' : State}
    → s.config.fee_account ≡ some account
    → release_with_fee_at token who a bps e s ≡ ok (tt, s')
    → s' ≡ record s {
      transfers =
          released e token who account
            (saturating_sub a (compute_fee_at a bps))
            (compute_fee_at a bps)
            s.transfers;
    }
unfolding release_with_fee_at
transfers-release_with_fee_at e s token who account a bps c h = ground arith

-- The two legs together cost the contract their sum.
balance-released :
    (e : Env) (token who account : Address) (net fee : ℕ) (log : List Transfer)
    → who ≢ e.current_contract_address
    → account ≢ e.current_contract_address
    → balance token e.current_contract_address
        (released e token who account (pos net) (pos fee) log)
      ≡ balance token e.current_contract_address log -ℤ pos (net + fee)
balance-released e token who account net fee log p q =
    let c = e.current_contract_address in
    let paid = leg token c who (pos net) ∷ log in
    grind (
      int_laws,
      balance-out token c account (pos fee) log q,
      balance-out token c who (pos net) log p,
      balance-out token c account (pos fee) paid q,
    )

-- A release of `a` with a rate of at most 1,000 basis points costs the contract exactly `a` and
-- changes nothing but the transfers. The premises are that `a` is an `i128`, that a fee account is set,
-- and that neither it nor the recipient is the contract.
pub release_with_fee_at-balance :
    (e : Env) (s : State) (token who account : Address) (a bps : ℕ) {s' : State}
    → a ≤ i128_max
    → bps ≤ 1000
    → s.config.fee_account ≡ some account
    → who ≢ e.current_contract_address
    → account ≢ e.current_contract_address
    → release_with_fee_at token who (pos a) bps e s ≡ ok (tt, s')
    → (balance token e.current_contract_address s'.transfers
        ≡ balance token e.current_contract_address s.transfers -ℤ pos a)
      × (s' ≡ record s { transfers = s'.transfers })
release_with_fee_at-balance e s token who account a bps {s'} fits rate c p q h =
    let (f, fee, le) = compute_fee_at_bounds a bps rate in
    let run = transfers-release_with_fee_at e s token who account (pos a) bps c h in
    (
      rw
          (
            run,
            fee,
            saturating_sub-pos a f le fits,
            balance-released e token who account (a - f) f s.transfers p q,
          )
          (omega int_laws),
      rw run,
    )

-- The transfers of a deposit: the amount and the fee in, and the fee out again if it is positive.
abbrev deposited : Env → Address → Address → Address → ℤ → ℤ → List Transfer → List Transfer
deposited e token from account total fee log =
    let paid = leg token from e.current_contract_address total ∷ log in
    if ltb_ℤ (pos 0) fee then leg token e.current_contract_address account fee ∷ paid else paid

pub transfers-deposit_with_fee_at :
    (e : Env) (s : State) (token from account : Address) (a credited : ℤ) (bps : ℕ) {s' : State}
    → s.config.fee_account ≡ some account
    → deposit_with_fee_at token from a bps e s ≡ ok (credited, s')
    → (credited ≡ a)
      × (s' ≡ record s {
        transfers =
            deposited e token from account
              (saturating_add a (compute_fee_at a bps))
              (compute_fee_at a bps)
              s.transfers;
      })
unfolding deposit_with_fee_at
transfers-deposit_with_fee_at e s token from account a credited bps c h = ground arith

balance-deposited :
    (e : Env) (token from account : Address) (a fee : ℕ) (log : List Transfer)
    → from ≢ e.current_contract_address
    → account ≢ e.current_contract_address
    → balance token e.current_contract_address
        (deposited e token from account (pos (a + fee)) (pos fee) log)
      ≡ balance token e.current_contract_address log +ℤ pos a
balance-deposited e token from account a fee log p q =
    let c = e.current_contract_address in
    let paid = leg token from c (pos (a + fee)) ∷ log in
    grind (
      int_laws,
      balance-in token c from (pos (a + fee)) log p,
      balance-out token c account (pos fee) paid q,
    )

-- A deposit of `a` with a rate of at most 1,000 basis points leaves the contract exactly `a` richer,
-- credits `a`, and changes nothing but the transfers. The premises are that twice `a` is an `i128`,
-- that a fee account is set, and that neither it nor the payer is the contract.
pub deposit_with_fee_at-balance :
    (e : Env) (s : State) (token from account : Address) (a bps : ℕ) {credited : ℤ} {s' : State}
    → a + a ≤ i128_max
    → bps ≤ 1000
    → s.config.fee_account ≡ some account
    → from ≢ e.current_contract_address
    → account ≢ e.current_contract_address
    → deposit_with_fee_at token from (pos a) bps e s ≡ ok (credited, s')
    → (balance token e.current_contract_address s'.transfers
        ≡ balance token e.current_contract_address s.transfers +ℤ pos a)
      × (credited ≡ pos a)
      × (s' ≡ record s { transfers = s'.transfers })
deposit_with_fee_at-balance e s token from account a bps {credited} {s'} fits rate c p q h =
    let (f, fee, le) = compute_fee_at_bounds a bps rate in
    let run = transfers-deposit_with_fee_at e s token from account (pos a) credited bps c h in
    let room : min (a + f) i128_max ≡ a + f = omega arith in
    (
      rw (
        run.1,
        fee,
        saturating_add-pos a f,
        room,
        balance-deposited e token from account a f s.transfers p q,
      ),
      run.0,
      rw run.1,
    )

-- ===== src/Dapos/Ledger.antt =====
-- The abstract view of the accounts that executeTransaction of dapos/dapos_handshake.go works on: a
-- balance for every address; and what a payment is there.
pub mod Refinement
pub mod Indexed
use mathlib.Core.Bool.{false≢true}
use disgo.Prelude.{
  ◌≡◌, refl, sym, ap, subst, ◌∙◌, ◌≢◌, ◌⊎◌, inl, inr, Bool, true, false, Bool-cases, Option, none,
  some, ℤ, pos, ◌+ℤ◌, ◌-ℤ◌, ◌≤ℤ◌, ◌<ℤ◌, if◌then◌else◌, wrap64, wrap64_self, add64, sub64, ltb_ℤ,
  fun_ext, arith, +ℤ_parts, -ℤ_parts, IsExact,
}
use disgo.Prelude.Text.{Bytes, ◌=ₛ◌, =ₛ_iff, =ₛ_refl, =ₛ_ne}
use disgo.Crypto.{External}
use disgo.Types.Errors.{Error, Result, ok, err, panic, ◌>>=◌, key_not_found, ok-injective}
use disgo.Types.Json.{Json}
use disgo.Types.Account.{Account, int64_of, from_json, marshal}
use disgo.Types.Account
use disgo.Types.Account.RoundTrip.{ParsesTimes, from_json_balance}
use disgo.Types.Receipt.{Receipt}
use disgo.Types.Gossip.{Gossip}
use disgo.Types.Transaction.{Transaction}
use disgo.Types.Constants.{type_transfer_tokens}
use disgo.Store.{Value, Stores, IsStore}
use disgo.Store.Records.{decode, to_account_by_address}
use disgo.Dapos.Run.{State}
use disgo.Dapos.Dvm.{Dvm}
use disgo.Dapos.Execute.{found_or_new, execute_transaction}
use disgo.Dapos.Execute.Outcome.{IsSaved}
use disgo.Dapos.Execute.Transfer.{Untouched, Transferred, paid, execute_transaction-Settled}

-- An account that is not there has nothing.
unfoldable pub balance_of : Result Account → Result ℤ
balance_of (ok a) = int64_of a.balance
balance_of (err key_not_found) = ok (pos 0)
balance_of (err e) = err e
balance_of panic = panic

unfoldable pub ledger : (s : Stores) → External → s.Db → Bytes → Result ℤ
unfolding balance_of
ledger s x db a = balance_of (to_account_by_address s x (s.new_transaction db) a)

-- The payment of an amount.
unfoldable pub pay : Bytes → Bytes → ℤ → (Bytes → Result ℤ) → Bytes → Result ℤ
pay from to v l a =
    let got = (l to >>= λ b. ok (b +ℤ v)) in
    let left = (l from >>= λ b. ok (b -ℤ v)) in
    if a =ₛ to then got else if a =ₛ from then left else l a

pub found_balance :
    (a : Bytes) (now : ℤ) (r : Result Account) (c : Account)
    → found_or_new a now r ≡ ok c
    → balance_of r ≡ int64_of c.balance
unfolding balance_of int64_of wrap64
found_balance a now (ok b) c e = ap (λ (d : Account). int64_of d.balance) (ok-injective e)
found_balance a now (err key_not_found) c e =
    ap (λ (d : Account). int64_of d.balance) (ok-injective e)
found_balance a now (err _) c e = cc
found_balance a now panic c e = cc

module _ (s : Stores) (x : External) where
  -- Every account is stored under its own address.
  abbrev pub IsIndexed : s.Db → Type 0
  IsIndexed db =
      (a : Bytes) (c : Account)
      → to_account_by_address s x (s.new_transaction db) a ≡ ok c
      → c.address ≡ a

  pub found_address :
      (a : Bytes) (now : ℤ) (r : Result Account) (c : Account)
      → ((b : Account) → r ≡ ok b → b.address ≡ a)
      → found_or_new a now r ≡ ok c
      → c.address ≡ a
  found_address a now (ok b) c f e = f c e
  found_address a now (err key_not_found) c f e =
      sym (ap (λ (d : Account). d.address) (ok-injective e))
  found_address a now (err _) c f e = cc
  found_address a now panic c f e = cc

  -- What a stored entry is read as.
  pub read_entry :
      (txn : s.Txn) (a : Bytes) (j : Json)
      → s.txn_get txn (Account.key a) ≡ ok (Value.json j)
      → to_account_by_address s x txn a ≡ from_json x j
  unfolding to_account_by_address
  read_entry txn a j e = rw e

  pub same_entry :
      (t u : s.Txn) (a : Bytes)
      → s.txn_get u (Account.key a) ≡ s.txn_get t (Account.key a)
      → to_account_by_address s x u a ≡ to_account_by_address s x t a
  unfolding to_account_by_address
  same_entry t u a e = rw e

  pub Untouched-ledger : (db db' : s.Db) → Untouched s x db db' → ledger s x db' ≡ ledger s x db
  unfolding ledger
  Untouched-ledger db db' u = fun_ext (λ a. ap balance_of (same_entry _ _ a (u a)))

  pub written_balance :
      (db : s.Db) (a : Bytes) (c : Account) (b : ℤ) (j : Json)
      → ParsesTimes x
      → c.balance ≡ some b
      → IsExact b
      → marshal x c ≡ ok j
      → s.txn_get (s.new_transaction db) (Account.key a) ≡ ok (Value.json j)
      → ledger s x db a ≡ ok b
  unfolding ledger balance_of int64_of
  written_balance db a c b j times e h made stored =
      let (d, read, _, balance) = from_json_balance x c b times e h made in
      rw (read_entry _ a j stored, read, balance) (rw (wrap64_self b (omega arith)))

-- Amounts that are no debts, and together no more than a float64 holds exactly.
abbrev pub IsFunded : ℤ → ℤ → ℤ → Type 0
IsFunded p q v = (pos 0 ≤ℤ p) × (pos 0 ≤ℤ q) × (pos 0 <ℤ v) × ((p +ℤ q) <ℤ pos 9007199254740992)

pub enough_le : (p v : ℤ) → ltb_ℤ p v ≡ false → v ≤ℤ p
enough_le p v h = ground arith

pub left-IsExact : (p q v : ℤ) → IsFunded p q v → v ≤ℤ p → IsExact (p -ℤ v) × (sub64 p v ≡ p -ℤ v)
unfolding sub64
left-IsExact p q v f e =
    let h : IsExact (p -ℤ v) = ground (arith, +ℤ_parts p q, -ℤ_parts p v) in
    (h, wrap64_self (p -ℤ v) (omega arith))

pub got-IsExact : (p q v : ℤ) → IsFunded p q v → v ≤ℤ p → IsExact (q +ℤ v) × (add64 q v ≡ q +ℤ v)
unfolding add64
got-IsExact p q v f e =
    let h : IsExact (q +ℤ v) = ground (arith, +ℤ_parts p q, +ℤ_parts q v) in
    (h, wrap64_self (q +ℤ v) (omega arith))

module _ (from to : Bytes) (v : ℤ) (l : Bytes → Result ℤ) where
  pay_to : (q : ℤ) → l to ≡ ok q → pay from to v l to ≡ ok (q +ℤ v)
  unfolding pay
  pay_to q e = rw (=ₛ_refl to, e)

  pay_from : (p : ℤ) → from ≢ to → l from ≡ ok p → pay from to v l from ≡ ok (p -ℤ v)
  unfolding pay
  pay_from p ne e = rw (=ₛ_ne from to ne, =ₛ_refl from, e)

  pay_other : (a : Bytes) → a ≢ from → a ≢ to → pay from to v l a ≡ l a
  unfolding pay
  pay_other a ne ne' = rw (=ₛ_ne a to ne', =ₛ_ne a from ne)

  -- A ledger that has the two new balances and all others is the payment.
  pub is_payment :
      (l' : Bytes → Result ℤ) (p q : ℤ)
      → from ≢ to
      → l from ≡ ok p
      → l to ≡ ok q
      → l' from ≡ ok (p -ℤ v)
      → l' to ≡ ok (q +ℤ v)
      → ((a : Bytes) → a ≢ from → a ≢ to → l' a ≡ l a)
      → l' ≡ pay from to v l
  is_payment l' p q ne e e' f g rest = fun_ext (λ a. elim (Bool-cases (a =ₛ from)) [
    | inl h ↦ rw ((=ₛ_iff a from).0 h) (f ∙ sym (pay_from p ne e))
    | inr h ↦ elim (Bool-cases (a =ₛ to)) [
      | inl h' ↦ rw ((=ₛ_iff a to).0 h') (g ∙ sym (pay_to q e'))
      | inr h' ↦
          rest a (λ k. false≢true (sym h ∙ (=ₛ_iff a from).1 k))
            (λ k. false≢true (sym h' ∙ (=ₛ_iff a to).1 k))
          ∙ sym (
              pay_other a (λ k. false≢true (sym h ∙ (=ₛ_iff a from).1 k))
                (λ k. false≢true (sym h' ∙ (=ₛ_iff a to).1 k)))
    ]
  ])

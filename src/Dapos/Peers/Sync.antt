-- ===== src/Dapos/Peers/Sync.antt =====
-- That synchronizeGossip of dapos/dapos_handshake.go keeps a delegate's rumors sound.
use disgo.Prelude.{
  ◌≡◌, refl, sym, ap, ◌∙◌, subst, Bool, true, false, ◌||◌, some, List, [], ◌∷◌, ◌++◌, ◌⊎◌, inl, inr,
  length, arith,
}
use disgo.Prelude.Text.{=ₛ_iff}
use disgo.Crypto.{External}
use disgo.Types.Errors.{Error, Result, ok, err, panic, >>=-eq-ok, ok-injective}
use disgo.Types.Json.{Json}
use disgo.Types.Rumor.{Rumor, verify, new_rumor}
use disgo.Types.Rumor.Signing.{new_rumor-verify}
use disgo.Types.Gossip.{Gossip, has_rumor, contains_rumor}
use disgo.Types.Node.{Node}
use disgo.Types.Transaction.{Transaction}
use disgo.Types.Transaction.Signing
use disgo.Types.Transaction.Signing.{check_shape}
use disgo.Types.Transaction.Verified.{verify-IsSigned, verify_parts}
use disgo.Store.{Stores}
use disgo.Store.Records.{to_gossip_from_cache}
use disgo.Dapos.Peers.{
  Delegate, Reply, Moment, Synced, absorb, merged, own_rumor, own_rumor-eq-ok,
  cache_on_first_receive, join_in, joined, synchronize_with, synchronize_gossip,
}
use disgo.Dapos.Peers.Rumors.{
  IsSound, Extends, Extends-trans, IsSound-append, absorb-IsSound, append_nil, IsMember,
  new_rumor_address, has_rumor_address, has_rumor-append,
}

shape_size : (t : Transaction) → check_shape t ≡ ok tt → length t.hash ≡ 64
unfolding check_shape
shape_size t h = ground arith

or_true : (b : Bool) → (b || true) ≡ true
or_true b = ground arith

module _ (s : Stores) (x : External) (me : Delegate) (remote : Node → Json → Reply) (now : Moment)
    (member : IsMember x me) where
  -- Our own rumor about a transaction that verifies, verifies too.
  own-verify :
      (t : Transaction) (r : Rumor)
      → Signing.verify x t ≡ ok tt
      → new_rumor x me.private_key me.address t.hash now.millis ≡ some r
      → verify x r ≡ true
  own-verify t r v made =
      let signed = verify-IsSigned x t v in
      new_rumor-verify x me.address t.hash member.address_bytes signed.hash_bytes now.millis
        me.private_key member.key member.public_key r member.digest member.pair member.key_text
        member.address_is member.size (shape_size t (verify_parts x t v).0) member.address_text
        signed.hash_text made

  -- What synchronizing promises, from the rumors `ours`: sound rumors with all of them in front, and
  -- a rumor of ours among them, unless there is an error.
  abbrev pub Promised : List Rumor → Synced s → Type 0
  Promised ours r =
      IsSound x r.gossip.rumors
      × Extends x ours r.gossip.rumors
      × ((has_rumor r.gossip.rumors me.address ≡ true) ⊎ ((e : Error) × (r.error ≡ some e)))

  own_is_there :
      (rs : List Rumor) (q : Rumor)
      → q.address ≡ me.address
      → has_rumor (rs ++ q ∷ []) me.address ≡ true
  own_is_there rs q e =
      has_rumor-append rs q me.address
      ∙ ap (λ (b : Bool). has_rumor rs me.address || b) ((=ₛ_iff q.address me.address).1 e)
      ∙ or_true (has_rumor rs me.address)

  join_in-Promised :
      (ours : List Rumor) (gossip synced : Gossip) (all : Bool) (nodes : List Node)
      (cached : Result Gossip) (c : s.Cache) (v : Result (Unit {0})) (r : Synced s)
      → Signing.verify x gossip.transaction ≡ v
      → IsSound x synced.rumors
      → Extends x ours synced.rumors
      → has_rumor synced.rumors me.address ≡ false
      → join_in s x me remote now gossip v synced all nodes cached c ≡ ok r
      → Promised ours r
  unfolding join_in
  join_in-Promised ours gossip synced all nodes cached c (ok u) r v sound ext new h =
      let (q, made, h₁) =
        >>=-eq-ok
          (own_rumor (new_rumor x me.private_key me.address gossip.transaction.hash now.millis)) _
          h in
      let made' = own_rumor-eq-ok _ made in
      let (c', _, h₂) = >>=-eq-ok (cache_on_first_receive s x me remote now _ nodes c) _ h₁ in
      subst (Promised ours) (ok-injective h₂) (
        IsSound-append x synced.rumors q sound (own-verify gossip.transaction q v made') (
            has_rumor_address synced.rumors me.address q.address
              (sym (new_rumor_address x _ _ _ _ q made')) new),
        Extends-trans x ours _ _ ext (q ∷ [], refl),
        inl (own_is_there synced.rumors q (new_rumor_address x _ _ _ _ q made')),
      )
  join_in-Promised ours gossip synced all nodes cached c (err e) r v sound ext new h =
      subst (Promised ours) (ok-injective h) (sound, ext, inr (e, refl))
  join_in-Promised ours gossip synced all nodes cached c panic r v sound ext new h = cc

  joined-Promised :
      (ours : List Rumor) (gossip synced : Gossip) (all : Bool) (nodes : List Node)
      (cached : Result Gossip) (c : s.Cache) (b : Bool) (r : Synced s)
      → has_rumor synced.rumors me.address ≡ b
      → IsSound x synced.rumors
      → Extends x ours synced.rumors
      → joined s x me remote now b gossip synced all nodes cached c ≡ ok r
      → Promised ours r
  unfolding joined
  joined-Promised ours gossip synced all nodes cached c true r e sound ext h =
      subst (Promised ours) (ok-injective h) (sound, ext, inl e)
  joined-Promised ours gossip synced all nodes cached c false r e sound ext h =
      join_in-Promised ours gossip synced all nodes cached c _ r refl sound ext e h

  synchronize_with-Promised :
      (gossip ours : Gossip) (nodes : List Node) (c : s.Cache) (r : Synced s)
      → IsSound x ours.rumors
      → synchronize_with s x me remote now gossip nodes (ok ours) c ≡ ok r
      → Promised ours.rumors r
  unfolding synchronize_with merged contains_rumor
  synchronize_with-Promised gossip ours nodes c r sound h =
      let (kept, more) = absorb-IsSound x ours.rumors false gossip.rumors sound in
      joined-Promised ours.rumors gossip
        (record ours { rumors = (absorb x ours.rumors false gossip.rumors).1 }) _ nodes (ok ours) c
        _ r refl kept more h

  -- A gossip that a delegate holds stays sound, whatever a peer sends: if its rumors all verify and
  -- are of different delegates, then so are those after synchronizing with a peer's gossip; none of
  -- them is lost, and the delegate's own rumor is among them unless an error is returned. The
  -- delegate has an account with a key pair that belongs to its address.
  pub synchronize_gossip-IsSound :
      (gossip ours : Gossip) (nodes : List Node) (c : s.Cache) (r : Synced s)
      → to_gossip_from_cache s c gossip.transaction.hash ≡ ok ours
      → IsSound x ours.rumors
      → synchronize_gossip s x me remote now gossip nodes c ≡ ok r
      → IsSound x r.gossip.rumors
        × Extends x ours.rumors r.gossip.rumors
        × ((has_rumor r.gossip.rumors me.address ≡ true) ⊎ ((e : Error) × (r.error ≡ some e)))
  unfolding synchronize_gossip
  synchronize_gossip-IsSound gossip ours nodes c r cached sound h =
      synchronize_with-Promised gossip ours nodes c r sound (
        subst (λ (o : Result Gossip). synchronize_with s x me remote now gossip nodes o c ≡ ok r)
          cached h)

module _ (s : Stores) (x : External) (me : Delegate) (remote : Node → Json → Reply)
    (now : Moment) where
  join_in-Extends :
      (gossip : Gossip) (all : Bool) (nodes : List Node) (missing : Error) (c : s.Cache)
      (v : Result (Unit {0})) (r : Synced s)
      → join_in s x me remote now gossip v gossip all nodes (err missing) c ≡ ok r
      → Extends x gossip.rumors r.gossip.rumors
  unfolding join_in
  join_in-Extends gossip all nodes missing c (ok u) r h =
      let (q, _, h₁) =
        >>=-eq-ok
          (own_rumor (new_rumor x me.private_key me.address gossip.transaction.hash now.millis)) _
          h in
      let (c', _, h₂) = >>=-eq-ok (cache_on_first_receive s x me remote now _ nodes c) _ h₁ in
      subst (λ (t : Synced s). Extends x gossip.rumors t.gossip.rumors) (ok-injective h₂)
        (q ∷ [], refl)
  join_in-Extends gossip all nodes missing c (err e) r h =
      subst (λ (t : Synced s). Extends x gossip.rumors t.gossip.rumors) (ok-injective h)
        ([], sym (append_nil gossip.rumors))
  join_in-Extends gossip all nodes missing c panic r h = cc

  joined-Extends :
      (gossip : Gossip) (nodes : List Node) (missing : Error) (c : s.Cache) (b : Bool)
      (r : Synced s)
      → joined s x me remote now b gossip gossip false nodes (err missing) c ≡ ok r
      → Extends x gossip.rumors r.gossip.rumors
  unfolding joined
  joined-Extends gossip nodes missing c true r h =
      subst (λ (t : Synced s). Extends x gossip.rumors t.gossip.rumors) (ok-injective h)
        ([], sym (append_nil gossip.rumors))
  joined-Extends gossip nodes missing c false r h =
      join_in-Extends gossip false nodes missing c _ r h

  -- The first gossip about a transaction is taken over with all the rumors that the peer claims,
  -- whether they verify or not, and however many are of one delegate.
  pub synchronize_gossip-Extends :
      (gossip : Gossip) (nodes : List Node) (missing : Error) (c : s.Cache) (r : Synced s)
      → to_gossip_from_cache s c gossip.transaction.hash ≡ err missing
      → synchronize_gossip s x me remote now gossip nodes c ≡ ok r
      → Extends x gossip.rumors r.gossip.rumors
  unfolding synchronize_gossip synchronize_with merged
  synchronize_gossip-Extends gossip nodes missing c r cached h =
      joined-Extends gossip nodes missing c (contains_rumor gossip me.address) r (
        subst (λ (o : Result Gossip). synchronize_with s x me remote now gossip nodes o c ≡ ok r)
          cached h)

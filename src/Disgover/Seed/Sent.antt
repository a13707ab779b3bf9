-- ===== src/Disgover/Seed/Sent.antt =====
-- What a ping has sent of the node and the authentication that a seed goes on with (PingSeedGrpc of
-- disgover).
use disgo.Prelude.{◌≡◌, refl, sym, ap, ◌∙◌, subst, Option, none, some}
use disgo.Prelude.Text.{Bytes, codes, ◌=ₛ◌, =ₛ_iff}
use disgo.Crypto.{External}
use disgo.Types.Errors.{
  Result, ok, err, panic, >>=-eq-ok, require, require-eq-ok, other, ok-injective,
}
use disgo.Types.Node.{Node}
use disgo.Types.Authentication.{Authentication, get_derived_address}
use disgo.Disgover.{
  ProtoAuthentication, ProtoNode, PingSeed, Service, deref, convert_to_domain_node,
  convert_to_domain_authentication,
}
use disgo.Disgover.Seed.{type_seed, unable, identify}

domain_fields :
    (p : ProtoNode) (n : Node)
    → convert_to_domain_node (some p) ≡ ok n
    → (n.address ≡ p.address) × (n.type ≡ p.type)
unfolding convert_to_domain_node
domain_fields p n e =
    let (grpc, e₁, f₁) = >>=-eq-ok (deref p.grpc_endpoint) _ e in
    let (http, e₂, f₂) = >>=-eq-ok (deref p.http_endpoint) _ f₁ in
    (
      ap (λ (m : Node). m.address) (sym (ok-injective f₂)),
      ap (λ (m : Node). m.type) (sym (ok-injective f₂)),
    )

sent_node :
    (o : Option ProtoNode) (n : Node)
    → convert_to_domain_node o ≡ ok n
    → (p : ProtoNode) × (o ≡ some p) × (convert_to_domain_node (some p) ≡ ok n)
unfolding convert_to_domain_node
sent_node none n e = cc
sent_node (some p) n e = (p, refl, e)

unable-eq-ok : (r : Result Bytes) {b : Bytes} → unable r ≡ ok b → r ≡ ok b
unable-eq-ok (ok b) e = e
unable-eq-ok (err r) e = cc
unable-eq-ok panic e = cc

-- What was sent of an authentication, and that it is this one.
abbrev Proven : Option ProtoAuthentication → Authentication → Type 0
Proven o a =
    (p : ProtoAuthentication) × (o ≡ some p)
    × (a.hash ≡ p.hash)
    × (a.time ≡ p.time)
    × (a.signature ≡ p.signature)

domain_authentication-Proven :
    (o : Option ProtoAuthentication) (a : Authentication)
    → convert_to_domain_authentication o ≡ ok a
    → Proven o a
unfolding convert_to_domain_authentication
domain_authentication-Proven none a e = cc
domain_authentication-Proven (some p) a e =
    let is = sym (ok-injective e) in
    (
      p,
      refl,
      ap (λ (b : Authentication). b.hash) is,
      ap (λ (b : Authentication). b.time) is,
      ap (λ (b : Authentication). b.signature) is,
    )

module _ (x : External) (v : Service) where
  pub identify-Sent :
      (ping : PingSeed) (node : Node) (a : Authentication)
      → identify x v ping ≡ ok (node, a)
      → (p : ProtoNode) × (ping.node ≡ some p)
        × ((node.address ≡ p.address) × (node.type ≡ p.type))
        × (get_derived_address x a ≡ ok node.address)
        × Proven ping.authentication a
  unfolding identify
  identify-Sent ping node a e =
      let (t, e₁, f₁) =
        >>=-eq-ok
          (require (v.this_node.type =ₛ type_seed) (other (codes "you pinged a non-seed node"))) _
          e in
      let (n, e₂, f₂) = >>=-eq-ok (convert_to_domain_node ping.node) _ f₁ in
      let (b, e₃, f₃) = >>=-eq-ok (convert_to_domain_authentication ping.authentication) _ f₂ in
      let (derived, e₄, f₄) = >>=-eq-ok (unable (get_derived_address x b)) _ f₃ in
      let (t', e₅, f₅) =
        >>=-eq-ok (require (derived =ₛ n.address) (other (codes "unable to authenticate you"))) _
          f₄ in
      let same : (n, b) ≡ (node, a) = ok-injective f₅ in
      let (p, is, converted) = sent_node ping.node n e₂ in
      let own : get_derived_address x b ≡ ok n.address =
        unable-eq-ok (get_derived_address x b) e₄
        ∙ ap ok ((=ₛ_iff derived n.address).0 (require-eq-ok _ _ e₅)) in
      (
        p,
        is,
        subst (λ (m : Node). (m.address ≡ p.address) × (m.type ≡ p.type))
            (ap (λ (q : Node × Authentication). q.0) same) (domain_fields p n converted),
        subst (λ (q : Node × Authentication). get_derived_address x q.1 ≡ ok q.0.address) same own,
        subst (Proven ping.authentication) (ap (λ (q : Node × Authentication). q.1) same)
            (domain_authentication-Proven ping.authentication b e₃),
      )

-- ===== src/Crd/Installed.antt =====
-- The end of the wait of internal/crd/install.go, and when an installation ends without an error.
use kilo_clustermesh_operato.Base.{
  sym, ap, subst, ◌∙◌, ◌≡◌, ◌↔◌, refl, inl, inr, ◌⊎◌, Bool, true, false, Option, none, some, List,
  [], ◌∷◌, In, any, Bool-cases,
}
use kilo_clustermesh_operato.Base.Result.{err, ok-eq-ok, ok, Result-cases}
use kilo_clustermesh_operato.Peer.Reconciler.Client.{ApiError, not_found, failed}
use kilo_clustermesh_operato.Crd.{
  Definition, CrdError, DefinitionClient, Event, deadline, tick, is_established, wait_for_crd,
  wrapped, apply, install_or_update, creating_crd, updating_crd,
}

module _ {Spec S : Type 0} (client : DefinitionClient Spec S) where
  -- A poll that finds the definition, established or not.
  abbrev pub Polls : Bool → Event S → Type 0
  Polls b deadline = ⊥
  Polls b (tick s) =
      (crd : Definition Spec) × (client.get s ≡ ok crd) × (any is_established crd.conditions ≡ b)

  -- The first event that is not a poll of a definition that is not established is one of an established
  -- definition.
  abbrev pub ComesUp : List (Event S) → Type 0
  ComesUp [] = ⊥
  ComesUp (e ∷ events) = Polls true e ⊎ (Polls false e × ComesUp events)

  -- The wait for the definition ends: if the deadline is among the events, it returns, and it returns
  -- without an error if and only if a poll finds the definition established, all polls before it find
  -- it not yet established, and the deadline comes after it.
  pub wait_for_crd_ends :
      (events : List (Event S))
      → In deadline events
      → ((o : Option CrdError) × (wait_for_crd client events ≡ some o))
        × ((wait_for_crd client events ≡ some none) ↔ ComesUp events)
  unfolding wait_for_crd
  wait_for_crd_ends [] i = absurd i
  wait_for_crd_ends (deadline ∷ events) i =
      ((_, refl), (λ h. cc, λ up. elim up [ inl out ↦ absurd out | inr later ↦ absurd later.0 ]))
  wait_for_crd_ends (tick s ∷ events) (inl e) = cc
  wait_for_crd_ends (tick s ∷ events) (inr i) = elim (Result-cases (client.get s)) [
    | inr (e, broken) ↦
        rw (broken, wait_for_crd)
          (
            (_, refl),
            (λ h. cc, λ up. elim up [ inl (crd, found, _) ↦ cc | inr ((crd, found, _), _) ↦ cc ]),
          )
    | inl (crd, found) ↦ elim (Bool-cases (any is_established crd.conditions)) [
      | inl up ↦ rw (found, up, wait_for_crd) ((none, refl), (λ h. inl (crd, refl, up), λ v. refl))
      | inr pending ↦
          let (returns, (to, from)) = wait_for_crd_ends events i in
          rw (found, pending, wait_for_crd)
            (
              returns,
              (
                λ h. inr ((crd, refl, pending), to h),
                λ v. elim v [ inl (crd', found', up) ↦ cc | inr (_, later) ↦ from later ],
              ),
            )
    ]
  ]

  -- The only write that leads to the state is a creation, where there was no definition, or an update
  -- with the resource version of the one that there was, and it succeeds.
  abbrev pub Writes : Definition Spec → S → S → Type 0
  Writes desired s s' =
      ((client.get s ≡ err not_found) × (client.create desired s ≡ (s', none)))
      ⊎ ((existing : Definition Spec) × (client.get s ≡ ok existing)
          × (client.update (record desired { resource_version = existing.resource_version }) s
              ≡ (s', none)))

  wrapped_iff :
      (e : CrdError) (r : S × Option ApiError) (s' : S)
      → (wrapped client e r ≡ (s', none)) ↔ (r ≡ (s', none))
  unfolding wrapped
  wrapped_iff e (s, none) s' = (λ h. ap (λ x. (x.0, none)) h, λ h. ap (λ x. (x.0, none)) h)
  wrapped_iff e (s, some cause) s' = (λ h. cc (ap (λ x. x.1) h), λ h. cc (ap (λ x. x.1) h))

  apply_iff :
      (desired : Definition Spec) (s s' : S)
      → (apply client desired s ≡ (s', none)) ↔ Writes desired s s'
  unfolding apply
  apply_iff desired s s' = elim (Result-cases (client.get s)) [
    | inr (failed, e) ↦
        rw (e, apply)
          (
            λ h. cc (ap (λ x. x.1) h),
            λ v. elim v [ inl (missing, _) ↦ cc | inr (existing, found, _) ↦ cc ],
          )
    | inr (not_found, e) ↦
        let (to, from) = wrapped_iff creating_crd (client.create desired s) s' in
        rw (e, apply)
          (
            λ h. inl (refl, to h),
            λ v. elim v [ inl (_, created) ↦ from created | inr (existing, found, _) ↦ cc ],
          )
    | inl (existing, e) ↦
        let sent : Definition Spec = record desired {
          resource_version = existing.resource_version;
        } in
        let (to, from) = wrapped_iff updating_crd (client.update sent s) s' in
        rw (e, apply)
          (
            λ h. inr (existing, refl, to h),
            λ v. elim v [
              | inl (missing, _) ↦ cc
              | inr (existing', found, updated) ↦ from (
                  subst
                    (λ (d : Definition Spec).
                      client.update (record desired { resource_version = d.resource_version }) s
                      ≡ (s', none))
                    (sym (ok-eq-ok existing existing' found)) updated)
            ],
          )
  ]

  -- `InstallOrUpdate` with an embedded definition that parses and a client, where the events of the
  -- wait end with the deadline, returns without an error if and only if its one write, the creation of
  -- a missing definition or the update of the existing one with its resource version, succeeds, and
  -- the wait that follows in the state after the write sees the definition come up before the deadline.
  pub install_or_update_installs :
      (desired : Definition Spec) (events : S → List (Event S)) (s s' : S)
      → In deadline (events s')
      → (install_or_update client (some desired) true events s ≡ (s', some none))
        ↔ (Writes desired s s' × ComesUp (events s'))
  unfolding install_or_update
  install_or_update_installs desired events s s' ends = go (apply client desired s) refl
    where
      go :
          (r : S × Option CrdError)
          → apply client desired s ≡ r
          → (install_or_update client (some desired) true events s ≡ (s', some none))
            ↔ (Writes desired s s' × ComesUp (events s'))
      go (s'', some failure) e =
          rw (e, install_or_update)
            (
              λ h. cc (ap (λ x. x.1) h),
              λ (wrote, up). cc (ap (λ x. x.1) (sym e ∙ (apply_iff desired s s').1 wrote)),
            )
      go (s'', none) e =
          rw (e, install_or_update)
            (
              λ h.
                  let same = ap (λ x. x.0) h in
                  let wait = ap (λ x. wait_for_crd client (events x.0)) e in
                  (
                    (apply_iff desired s s').0 (e ∙ ap (λ x. (x, none)) same),
                    (wait_for_crd_ends (events s') ends).1.0 (
                        ap (λ x. wait_for_crd client (events x)) (sym same)
                        ∙ sym wait
                        ∙ ap (λ x. x.1) h),
                  ),
              λ (wrote, up).
                  let same = ap (λ x. x.0) (sym e ∙ (apply_iff desired s s').1 wrote) in
                  ap (λ x. (s'', wait_for_crd client (events x.0))) e
                  ∙ ap (λ x. (x, wait_for_crd client (events x))) same
                  ∙ ap (λ o. (s', o)) ((wait_for_crd_ends (events s') ends).1.1 up),
            )

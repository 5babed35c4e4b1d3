-- ===== src/Crd.antt =====
-- internal/crd/install.go: the installation of the ClusterMesh CRD at the start. The API server and
-- the object that the embedded YAML decodes to are parameters.
pub mod Installed
use kilo_clustermesh_operato.Base.{
  codes, str_eq, ℕ, Bool, true, false, Option, none, some, List, [], ◌∷◌, Text, any, if◌then◌else◌,
  ◌&&◌,
}
use kilo_clustermesh_operato.Base.Result.{Result, ok, err}
use kilo_clustermesh_operato.Peer.Reconciler.Client.{ApiError, not_found, failed}

-- A CustomResourceDefinition: its resource version, its specification, and the type and the status of
-- each of its conditions.
pub record Definition (Spec : Type 0) : Type 0 where
  pub resource_version : Text
  pub spec : Spec
  pub conditions : List (Text × Text)

pub data CrdError : Type 0 where
  parsing_yaml creating_client creating_crd getting_crd updating_crd polling timed_out : CrdError

-- The client of the definitions, on the one of the operator's name.
pub record DefinitionClient (Spec S : Type 0) : Type 0 where
  pub get : S → Result ApiError (Definition Spec)
  pub create : Definition Spec → S → S × Option ApiError
  pub update : Definition Spec → S → S × Option ApiError

-- What the `select` of `waitForCRD` receives; the world may change before a tick.
pub data Event (S : Type 0) : Type 0 where
  deadline : Event S
  tick : S → Event S

-- The test of the inner loop of `waitForCRD`.
abbrev pub is_established : Text × Text → Bool
is_established (kind, status) = str_eq kind (codes "Established") && str_eq status (codes "True")

module _ {Spec S : Type 0} (client : DefinitionClient Spec S) where
  -- The loop of `waitForCRD`, `none` while it waits for the next event.
  unfoldable pub wait_for_crd : List (Event S) → Option (Option CrdError)
  wait_for_crd [] = none
  wait_for_crd (deadline ∷ events) = some (some timed_out)
  wait_for_crd (tick s ∷ events) = elim (client.get s) [
    | err e ↦ some (some polling)
    | ok crd ↦
        let rest = wait_for_crd events in
        if any is_established crd.conditions then some none else rest
  ]

  -- A failed write as an error.
  unfoldable pub wrapped : CrdError → S × Option ApiError → S × Option CrdError
  wrapped e (s', none) = (s', none)
  wrapped e (s', some cause) = (s', some e)

  -- The `switch` of `InstallOrUpdate`.
  unfoldable pub apply : Definition Spec → S → S × Option CrdError
  unfolding wrapped
  apply desired s = elim (client.get s) [
    | err not_found ↦ wrapped creating_crd (client.create desired s)
    | err failed ↦ (s, some getting_crd)
    | ok existing ↦
        wrapped updating_crd
          (client.update (record desired { resource_version = existing.resource_version }) s)
  ]

  -- `InstallOrUpdate`: what `parseCRD` returns, whether the client can be built, and the events of
  -- the wait, which begins in the state after the write.
  unfoldable pub install_or_update :
      Option (Definition Spec) → Bool → (S → List (Event S)) → S → S × Option (Option CrdError)
  unfolding apply wait_for_crd
  install_or_update none can_connect events s = (s, some (some parsing_yaml))
  install_or_update (some desired) can_connect events s =
      if can_connect
      then (let (s', e) = apply desired s in
          (s', elim e [ some failure ↦ some (some failure) | none ↦ wait_for_crd (events s') ]))
      else (s, some (some creating_client))

-- ===== src/Examples/Install.antt =====
-- An installation of the CRD on a server in memory.
use kilo_clustermesh_operato.Base.{
  ◌≡◌, ◌↔◌, refl, inl, inr, true, Option, none, some, List, [], ◌∷◌, Text, codes,
}
use kilo_clustermesh_operato.Base.Result.{Result, ok, err}
use kilo_clustermesh_operato.Peer.Reconciler.Client.{ApiError, not_found}
use kilo_clustermesh_operato.Crd.{
  Definition, CrdError, DefinitionClient, Event, deadline, tick, wait_for_crd, install_or_update,
}
use kilo_clustermesh_operato.Crd.Installed.{
  Writes, ComesUp, wait_for_crd_ends, install_or_update_installs,
}

abbrev Server : Type 0
Server = Option (Definition Text)

abbrev serve_get : Server → Result ApiError (Definition Text)
serve_get none = err not_found
serve_get (some d) = ok d

abbrev definitions : DefinitionClient Text Server
definitions = record {
  get = serve_get;
  create = λ d s. (some d, none);
  update = λ d s. (some d, none);
}

abbrev embedded : Definition Text
embedded = record { resource_version = []; spec = codes "v1alpha1"; conditions = [] }

-- The second poll finds the definition established.
abbrev events : Server → List (Event Server)
events s =
    tick s
    ∷ tick (some (record embedded { conditions = (codes "Established", codes "True") ∷ [] }))
    ∷ deadline
    ∷ []

wait_for_crd_ends_example :
    ((o : Option CrdError) × (wait_for_crd definitions (events (some embedded)) ≡ some o))
    × ((wait_for_crd definitions (events (some embedded)) ≡ some none)
        ↔ ComesUp definitions (events (some embedded)))
wait_for_crd_ends_example =
    wait_for_crd_ends definitions (events (some embedded)) (inr (inr (inl refl)))

install_or_update_installs_example :
    (install_or_update definitions (some embedded) true events none ≡ (some embedded, some none))
    ↔ (Writes definitions embedded none (some embedded)
        × ComesUp definitions (events (some embedded)))
install_or_update_installs_example =
    install_or_update_installs definitions embedded events none (some embedded)
      (inr (inr (inl refl)))

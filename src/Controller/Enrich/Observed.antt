-- ===== src/Controller/Enrich/Observed.antt =====
-- `enrichEndpointsFromDiscovered` of internal/controller/clustermesh_controller.go on a list of peers,
-- with what the nodes of the target list as observed.
use kilo_clustermesh_operato.Base.{
  ◌≡◌, ◌↔◌, refl, ap, inl, inr, Option, none, some, List, [], ◌∷◌, Text, In, Bool-cases,
  Option-cases, ◌∙◌,
}
use kilo_clustermesh_operato.Api.{Node, Peer}
use kilo_clustermesh_operato.Kilonode.Discovered.{Decoder, discovered_endpoints_by_key}
use kilo_clustermesh_operato.Kilonode.Discovered.First.{
  IsFirst, all_observed, discovered_endpoints-IsFirst,
}
use kilo_clustermesh_operato.Controller.Enrich.{
  parse_discovered_endpoint, overrides, enrich_peer, enrich_endpoints,
}
use kilo_clustermesh_operato.Controller.Enrich.Preserves.{Enriches, enrich_peer-Enriches}

-- The text of a key is the first usable observation of it on the nodes.
abbrev pub IsLookup : Decoder → List Node → (Text → Option Text) → Type 0
IsLookup decode nodes found =
    (key t : Text) → (found key ≡ some t) ↔ IsFirst key t (all_observed decode nodes)

abbrev pub EachEnriches : (Text → Option Text) → List Peer → List Peer → Type 0
EachEnriches found [] [] = Unit
EachEnriches found [] (q ∷ qs) = ⊥
EachEnriches found (p ∷ ps) [] = ⊥
EachEnriches found (p ∷ ps) (q ∷ qs) = Enriches found p q × EachEnriches found ps qs

-- What is pushed for the desired peers: the peers as they are if the nodes cannot be listed, and else
-- each with the observed endpoint of its key.
abbrev pub IsPushed : Decoder → Option (List Node) → List Peer → List Peer → Type 0
IsPushed decode none desired pushed = pushed ≡ desired
IsPushed decode (some nodes) desired pushed =
    (found : Text → Option Text) × IsLookup decode nodes found × EachEnriches found desired pushed

each_enriches :
    (found : Text → Option Text) (ps : List Peer)
    → EachEnriches found ps (enrich_endpoints (some found) ps)
unfolding enrich_endpoints
each_enriches found [] = tt
each_enriches found (p ∷ ps) = (enrich_peer-Enriches found p, each_enriches found ps)

pub enrich_endpoints-IsPushed :
    (decode : Decoder) (listed : Option (List Node)) (desired : List Peer)
    → IsPushed decode listed desired
        (enrich_endpoints (discovered_endpoints_by_key decode listed) desired)
unfolding discovered_endpoints_by_key enrich_endpoints
enrich_endpoints-IsPushed decode none desired = refl
enrich_endpoints-IsPushed decode (some nodes) desired =
    (_, (λ key t. discovered_endpoints-IsFirst decode nodes _ key t refl), each_enriches _ desired)

-- The name and the public key of a peer stay.
enrich_peer-keeps :
    (found : Text → Option Text) (p : Peer)
    → ((enrich_peer found p).name ≡ p.name)
      × ((enrich_peer found p).spec.public_key ≡ p.spec.public_key)
unfolding enrich_peer
enrich_peer-keeps found p = elim (Option-cases (found p.spec.public_key)) [
  | inl missing ↦ rw (missing, enrich_peer) (refl, refl)
  | inr (text, there) ↦ elim (Bool-cases (overrides text p.spec.endpoint)) [
    | inr same ↦ rw (there, same, enrich_peer) (refl, refl)
    | inl differs ↦ elim (Option-cases (parse_discovered_endpoint text)) [
      | inl bad ↦ rw (there, differs, bad, enrich_peer) (refl, refl)
      | inr (e, good) ↦ rw (there, differs, good, enrich_peer) (refl, refl)
    ]
  ]
]

-- A pushed peer has the name and the public key of a desired one.
pub enrich_endpoints-In :
    (found : Option (Text → Option Text)) (ps : List Peer) (q : Peer)
    → In q (enrich_endpoints found ps)
    → (p : Peer) × In p ps × (q.name ≡ p.name) × (q.spec.public_key ≡ p.spec.public_key)
unfolding enrich_endpoints
enrich_endpoints-In none ps q i = (q, i, refl, refl)
enrich_endpoints-In (some found) [] q i = absurd i
enrich_endpoints-In (some found) (p ∷ ps) q (inl e) =
    let (name, key) = enrich_peer-keeps found p in
    (p, inl refl, ap (λ x. x.name) e ∙ name, ap (λ x. x.spec.public_key) e ∙ key)
enrich_endpoints-In (some found) (p ∷ ps) q (inr j) =
    let (o, k, name, key) = enrich_endpoints-In (some found) ps q j in (o, inr k, name, key)

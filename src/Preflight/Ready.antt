-- ===== src/Preflight/Ready.antt =====
-- What a ready report of backend/app/services/provisioning/preflight.py says of the
-- infrastructure.
use infra_ops.Prelude.{
  ℕ, String, ◌≡◌, refl, subst, Bool, true, false, List, [], Option, none, some, arith, truthy_text,
  any, str_mem, ◌∷◌, ltb, if◌then◌else◌, Bool-cases, if_of_true, if_of_false, inl, inr,
}
use infra_ops.Prelude.Json.{lookup}
use infra_ops.Placement.{
  Datastore, fits, choose_automatic_datastore, choose_automatic_datastore-fits,
}
use infra_ops.Requests.Schema.{ProvisioningRequest}
use infra_ops.Requests.Identity.{total_disk_gb}
use infra_ops.Preflight.Report.{
  PreflightCheck, Answer, answered, raised, failed, failures, failures-append,
}
use infra_ops.Preflight.Media.{
  WindowsMediaKind, server, client, unknown, iso_volume_label, classify_windows_media,
}
use infra_ops.Preflight.Inventory.{
  Host, chosen_host, https_checks, Inventory, IsoImage, Trail, after, also, host_checks,
  check_host_file_transfers, pool_checks, selected_store, automatic_store, is_accessible,
  store_checks, check_storage, network_checks, transfer_hosts, media_checks,
  check_windows_server_media, iso_checks, stores, selected_datastore, from_datastores, from_pool,
  from_hosts, from_cluster, from_clusters, from_datacenter, from_datacenters, closed,
  check_infrastructure,
}

-- A section that no exception ended and that has no blocking failure.
abbrev IsClean : Trail → Type 0
IsClean t = (t.broken ≡ false) × (failures t.checks ≡ 0)

after-IsClean {ℓ} :
    {A : Type ℓ} (a : Answer A) (next : A → Trail)
    → IsClean (after a next)
    → (x : A) × (a ≡ answered x) × IsClean (next x)
after-IsClean (answered x) next c = (x, refl, c)
after-IsClean raised next (b, f) = ground arith

also-IsClean :
    (checks : List PreflightCheck) (t : Trail)
    → IsClean (also checks t)
    → (failures checks ≡ 0) × IsClean t
also-IsClean checks t (b, f) =
    let s = failures-append checks t.checks in (omega (arith, s, f), (b, omega (arith, s, f)))

closed-IsClean :
    (v : Inventory) (r : ProvisioningRequest) (p : Option (List String)) (t : Trail)
    → failures (closed v r p t) ≡ 0
    → IsClean t
closed-IsClean v r p t f =
    let s =
      failures-append t.checks
        (if t.broken then failed "infrastructure" "Infrastructure discovery" else []) in
    elim (Bool-cases t.broken) [
      | inl q ↦ absurd (ground (arith, s, f, q))
      | inr q ↦ (q, omega (arith, s, f))
    ]

-- The datastore that the disks go to: the selected one, or else the automatic choice; it is
-- accessible and has room.
abbrev pub HasRoom : ℕ → List (String × Datastore) → Option (List String) → Option String → Type 0
HasRoom total_gb datastores preferred (some id) =
    (d : Datastore) × (lookup id datastores ≡ some d) × (fits total_gb d ≡ true)
HasRoom total_gb datastores preferred none =
    (d : Datastore) × ((choose_automatic_datastore (stores datastores) preferred total_gb).datastore
      ≡ some d)
    × (fits total_gb d ≡ true)

selected_room :
    (total_gb : ℕ) (d : Datastore)
    → failures (selected_store total_gb (some d)) ≡ 0
    → fits total_gb d ≡ true
selected_room total_gb d f = elim (Bool-cases d.accessible) [
  | inr q ↦ absurd (ground (arith, q, f))
  | inl q ↦ elim (Bool-cases (ltb d.free_gb total_gb)) [
    | inl l ↦ absurd (ground (arith, q, l, f))
    | inr l ↦ ground (arith, q, l)
  ]
]

selected_store-fits :
    (total_gb : ℕ) (o : Option Datastore)
    → failures (selected_store total_gb o) ≡ 0
    → (d : Datastore) × (o ≡ some d) × (fits total_gb d ≡ true)
selected_store-fits total_gb none f = ground arith
selected_store-fits total_gb (some d) f = (d, refl, selected_room total_gb d f)

automatic_store-some :
    (o : Option Datastore) (configured : Bool)
    → failures (automatic_store o configured) ≡ 0
    → (d : Datastore) × (o ≡ some d)
automatic_store-some none configured f = ground arith
automatic_store-some (some d) configured f = (d, refl)

store_checks-HasRoom :
    (total_gb : ℕ) (datastores : List (String × Datastore)) (preferred : Option (List String))
    (id : Option String)
    → failures (store_checks total_gb datastores preferred id) ≡ 0
    → HasRoom total_gb datastores preferred id
store_checks-HasRoom total_gb datastores preferred (some id) f =
    selected_store-fits total_gb (lookup id datastores) f
store_checks-HasRoom total_gb datastores preferred none f =
    let (d, e) = automatic_store-some _ _ f in
    (d, e, choose_automatic_datastore-fits (stores datastores) preferred total_gb d e)

some_network :
    (o : Option String) → failures (network_checks o) ≡ 0 → (name : String) × (o ≡ some name)
some_network none f = ground arith
some_network (some name) f = (name, refl)

server_media : (k : WindowsMediaKind) → failures (media_checks k) ≡ 0 → k ≡ server
server_media server f = refl
server_media client f = ground arith
server_media unknown f = ground arith

-- A header that was read and names Windows Server media.
abbrev pub IsServerMedia : Answer (List ℕ) → Type 0
IsServerMedia a =
    (header : List ℕ) × (a ≡ answered header)
    × (classify_windows_media (iso_volume_label header) ≡ server)

server_header :
    (a : Answer (List ℕ)) → failures (check_windows_server_media a) ≡ 0 → IsServerMedia a
server_header raised f = ground arith
server_header (answered header) f = (header, refl, server_media _ f)

some_image :
    (v : Inventory) (dc : String) (datastores : List (String × Datastore)) (o : Option IsoImage)
    → failures (iso_checks v dc datastores o) ≡ 0
    → (image : IsoImage) × (o ≡ some image) × IsServerMedia (v.read_datastore_file dc image.path)
some_image v dc datastores none f = ground arith
some_image v dc datastores (some image) f =
    elim (Bool-cases (is_accessible (lookup image.datastore_id datastores))) [
      | inr q ↦ absurd (ground (arith, q, f))
      | inl q ↦
          (image, refl, server_header (v.read_datastore_file dc image.path) (ground (arith, q, f)))
    ]

-- An answer that names the identifier.
abbrev pub Names {ℓ} : {A : Type ℓ} → Answer (List (String × A)) → String → A → Type ℓ
Names {A} a id x = (found : List (String × A)) × (a ≡ answered found) × (lookup id found ≡ some x)

-- The host that the request names, if it names one, is there and available.
abbrev pub HostUsable : Option String → List (String × Host) → Type 0
HostUsable none hosts = Unit
HostUsable (some id) hosts =
    truthy_text id ≡ true
    → (host : Host) × (lookup id hosts ≡ some host) × (host.available_for_provisioning ≡ true)

chosen_usable :
    (o : Option Host)
    → failures (chosen_host o) ≡ 0
    → (host : Host) × (o ≡ some host) × (host.available_for_provisioning ≡ true)
chosen_usable none f = ground arith
chosen_usable (some host) f = elim (Bool-cases host.available_for_provisioning) [
  | inl q ↦ (host, refl, q)
  | inr q ↦ absurd (ground (arith, q, f))
]

host_usable :
    (o : Option String) (hosts : List (String × Host))
    → failures (host_checks o hosts) ≡ 0
    → HostUsable o hosts
host_usable none hosts f = tt
host_usable (some id) hosts f = λ t.
    chosen_usable (lookup id hosts)
      (subst (λ l. failures l ≡ 0) (if_of_true (truthy_text id) _ [] t) f)

-- The hosts that files are transferred to answer over HTTPS, none with a problem.
abbrev pub HostsReachable : Inventory → List String → Type 0
HostsReachable v [] = Unit
HostsReachable v (name ∷ names) =
    (results : List (String × String)) × (v.check_host_https (name ∷ names) ≡ answered results)
    × (any (λ (r : String × String). truthy_text r.1) results ≡ false)

https_reachable :
    (a : Answer (List (String × String)))
    → failures (https_checks a) ≡ 0
    → (results : List (String × String)) × (a ≡ answered results)
      × (any (λ (r : String × String). truthy_text r.1) results ≡ false)
https_reachable raised f = ground arith
https_reachable (answered results) f =
    elim (Bool-cases (any (λ (r : String × String). truthy_text r.1) results)) [
      | inl q ↦ absurd (ground (arith, q, f))
      | inr q ↦ (results, refl, q)
    ]

hosts_reachable :
    (v : Inventory) (names : List String)
    → failures (check_host_file_transfers v names) ≡ 0
    → HostsReachable v names
hosts_reachable v [] f = tt
hosts_reachable v (name ∷ names) f = https_reachable (v.check_host_https (name ∷ names)) f

-- The resource pool that the request names, if it names one, is there.
abbrev pub PoolThere : Inventory → String → Option String → Type 0
PoolThere v cluster none = Unit
PoolThere v cluster (some id) =
    truthy_text id ≡ true
    → (pools : List String) × (v.get_resource_pools cluster ≡ answered pools)
      × (str_mem id pools ≡ true)

pool_there :
    (id : String) (pools : List String)
    → failures (pool_checks id pools) ≡ 0
    → str_mem id pools ≡ true
pool_there id pools f = elim (Bool-cases (str_mem id pools)) [
  | inl q ↦ q
  | inr q ↦ absurd (ground (arith, q, f))
]

-- The hosts and the pool of a cluster.
abbrev pub ComputeUsable : Inventory → ProvisioningRequest → String → Type 0
ComputeUsable v r cluster =
    (hosts : List (String × Host)) × (v.get_hosts cluster ≡ answered hosts)
    × HostUsable r.compute.host_id hosts
    × HostsReachable v (transfer_hosts r.compute.host_id hosts)
    × PoolThere v cluster r.compute.resource_pool_id

module _ (v : Inventory) (r : ProvisioningRequest) (preferred : Option (List String)) where
  -- The storage, network and installation medium that the request names are there.
  abbrev pub CanInstall : String → String → Type 0
  CanInstall dc cluster =
      (datastores : List (String × Datastore)) × (network : String) × (image : IsoImage)
      × (v.get_datastores cluster ≡ answered datastores)
      × HasRoom (total_disk_gb r) datastores preferred (selected_datastore r.hardware.disks)
      × Names (v.get_networks dc) r.network.network_id network
      × Names (v.get_isos dc) r.guest.iso_id image
      × IsServerMedia (v.read_datastore_file dc image.path)

  from_datastores-CanInstall :
      (dc cluster : String)
      → IsClean (from_datastores v r preferred dc cluster)
      → CanInstall dc cluster
  unfolding check_storage
  from_datastores-CanInstall dc cluster c =
      let (datastores, ed, cd) = after-IsClean (v.get_datastores cluster) _ c in
      let (room, rest) = also-IsClean (check_storage r datastores preferred) _ cd in
      let (networks, en, cn) = after-IsClean (v.get_networks dc) _ rest in
      let (fn, more) = also-IsClean (network_checks (lookup r.network.network_id networks)) _ cn in
      let (isos, ei, ci) = after-IsClean (v.get_isos dc) _ more in
      let (name, fname) = some_network (lookup r.network.network_id networks) fn in
      let (image, fimage, media) = some_image v dc datastores (lookup r.guest.iso_id isos) ci.1 in
      (
        datastores,
        name,
        image,
        ed,
        store_checks-HasRoom (total_disk_gb r) datastores preferred
            (selected_datastore r.hardware.disks) room,
        (networks, en, fname),
        (isos, ei, fimage),
        media,
      )

  from_pool-CanInstall :
      (dc cluster : String) (o : Option String)
      → IsClean (from_pool v r preferred dc cluster o)
      → CanInstall dc cluster
  from_pool-CanInstall dc cluster none c = from_datastores-CanInstall dc cluster c
  from_pool-CanInstall dc cluster (some id) c = elim (Bool-cases (truthy_text id)) [
    | inr q ↦
        from_datastores-CanInstall dc cluster (subst IsClean (if_of_false (truthy_text id) _ _ q) c)
    | inl q ↦
        let chosen = subst IsClean (if_of_true (truthy_text id) _ _ q) c in
        let (pools, e, k) = after-IsClean (v.get_resource_pools cluster) _ chosen in
        from_datastores-CanInstall dc cluster (also-IsClean (pool_checks id pools) _ k).1
  ]

  from_pool-PoolThere :
      (dc cluster : String) (o : Option String)
      → IsClean (from_pool v r preferred dc cluster o)
      → PoolThere v cluster o
  from_pool-PoolThere dc cluster none c = tt
  from_pool-PoolThere dc cluster (some id) c = λ t.
      let chosen = subst IsClean (if_of_true (truthy_text id) _ _ t) c in
      let (pools, e, k) = after-IsClean (v.get_resource_pools cluster) _ chosen in
      (pools, e, pool_there id pools (also-IsClean (pool_checks id pools) _ k).0)

  from_cluster-CanInstall :
      (dc : String) (o : Option String)
      → IsClean (from_cluster v r preferred dc o)
      → (name : String) × (o ≡ some name)
        × ComputeUsable v r r.compute.cluster_id
        × CanInstall dc r.compute.cluster_id
  from_cluster-CanInstall dc none (b, f) = ground arith
  from_cluster-CanInstall dc (some name) c =
      let (hosts, e, h) =
        after-IsClean (v.get_hosts r.compute.cluster_id) (from_hosts v r preferred dc) c in
      let (g, l) =
        also-IsClean (host_checks r.compute.host_id hosts)
          (also (check_host_file_transfers v (transfer_hosts r.compute.host_id hosts))
            (from_pool v r preferred dc r.compute.cluster_id r.compute.resource_pool_id))
          h in
      let (m, n) =
        also-IsClean (check_host_file_transfers v (transfer_hosts r.compute.host_id hosts))
          (from_pool v r preferred dc r.compute.cluster_id r.compute.resource_pool_id) l in
      (
        name,
        refl,
        (
          hosts,
          e,
          host_usable r.compute.host_id hosts g,
          hosts_reachable v (transfer_hosts r.compute.host_id hosts) m,
          from_pool-PoolThere dc r.compute.cluster_id r.compute.resource_pool_id n,
        ),
        from_pool-CanInstall dc r.compute.cluster_id r.compute.resource_pool_id n,
      )

  from_datacenter-CanInstall :
      (dc : String) (o : Option String)
      → IsClean (from_datacenter v r preferred dc o)
      → (name : String) × (o ≡ some name)
        × ((cluster : String) × Names (v.get_clusters dc) r.compute.cluster_id cluster
            × ComputeUsable v r r.compute.cluster_id
            × CanInstall dc r.compute.cluster_id)
  from_datacenter-CanInstall dc none (b, f) = ground arith
  from_datacenter-CanInstall dc (some name) c =
      let (clusters, e, h) = after-IsClean (v.get_clusters dc) (from_clusters v r preferred dc) c in
      let (cluster, g, compute, can) =
        from_cluster-CanInstall dc (lookup r.compute.cluster_id clusters) h in
      (name, refl, (cluster, (clusters, e, g), compute, can))

  -- The infrastructure that the request names.
  abbrev pub IsAvailable : Type 0
  IsAvailable =
      (dc : String) × (cluster : String) × Names v.get_datacenters r.compute.datacenter_id dc
      × Names (v.get_clusters r.compute.datacenter_id) r.compute.cluster_id cluster
      × ComputeUsable v r r.compute.cluster_id
      × CanInstall r.compute.datacenter_id r.compute.cluster_id

  pub check_infrastructure-IsAvailable :
      failures (check_infrastructure v r preferred) ≡ 0 → IsAvailable
  unfolding check_infrastructure
  check_infrastructure-IsAvailable f =
      let next =
        λ (datacenters : List (String × String)). from_datacenters v r preferred datacenters in
      let c = closed-IsClean v r preferred (after v.get_datacenters next) f in
      let (datacenters, e, k) = after-IsClean v.get_datacenters next c in
      let (dc, g, (cluster, names, compute, can)) =
        from_datacenter-CanInstall r.compute.datacenter_id
          (lookup r.compute.datacenter_id datacenters) k in
      (dc, cluster, (datacenters, e, g), names, compute, can)

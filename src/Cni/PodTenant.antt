-- ===== src/Cni/PodTenant.antt =====
-- The daemon's pod handler and the plugin's search for a pod's tenant, through the pod store's file.
use tenant_cni.Base.{
  Error, Outcome, Result, Text, [], ap, arith, bytes, err, false, if◌then◌else◌, is_empty, none, ok,
  refl, returns, sym, tenant_name_not_found, true, ◌∙◌, ◌∷◌, ◌≡◌, ◌≢◌,
}
use tenant_cni.Base.Dict.{Dict, insert}
use tenant_cni.Cni.Commands.{find_tenant, get_tenant_pod, tenant_of_pod}
use tenant_cni.Controller.Events.{handle_pod_add, register_pod, tenant_of_annotation}
use tenant_cni.Controller.Release.{on_disk}
use tenant_cni.Host.{Cmd, crash, fail, pure}
use tenant_cni.Host.Laws.{bind_ok, ok_of_bind}
use tenant_cni.Ipam.PodStore.{
  PodStore, default_pod_store, empty_pods, load_pod_data, new_pod_store, store_pod_data,
}
use tenant_cni.Ipam.Store.{
  Disk, holds, join, json, load_value, make_directory, missing, new_store, new_store_there, opened,
  store_value, write_file,
}
use tenant_cni.Ipam.Types.{PodData}
use tenant_cni.K8s.{Pod}
use tenant_cni.Machine.{Machine, open_pods, save_pods, write_pods}

tenant_of_pod-insert_self :
    (pod tenant : Text) (pods : Dict Text)
    → is_empty tenant ≡ false
    → tenant_of_pod pod (insert pod tenant pods) ≡ tenant
unfolding tenant_of_pod insert
tenant_of_pod-insert_self pod tenant [] h = ground arith
tenant_of_pod-insert_self pod tenant ((name, other) ∷ pods) h =
    ground (arith, tenant_of_pod-insert_self pod tenant pods, h)

tenant_of_annotation_some : (pod : Pod) → is_empty (tenant_of_annotation pod) ≡ false
unfolding tenant_of_annotation
tenant_of_annotation_some pod = ground arith

new_pod_store_there :
    (d : Disk PodData)
    → d.entry ≢ missing
    → (s : PodStore) × (new_pod_store d ≡ (ok s, d)) × (s.disk ≡ d)
unfolding new_pod_store
new_pod_store_there d e =
    let file = join default_pod_store (bytes "podlist.json") in
    (
      opened default_pod_store file empty_pods d,
      new_store_there default_pod_store file empty_pods d e,
      refl,
    )

load_pod_data_there :
    (s : PodStore) (v : PodData)
    → s.disk.file ≡ holds (json v)
    → load_pod_data s ≡ (none, record s { value = v })
unfolding load_pod_data load_value
load_pod_data_there s v h = ground (arith, h)

-- What the plugin makes of the tenant that it has found.
abbrev pub tenant_or_error : Text → Outcome (Result Text)
tenant_or_error tenant =
    if is_empty tenant then returns (err tenant_name_not_found) else returns (ok tenant)

module _ {W : Type 0} where
  -- A pod store that is there and holds a value opens on that value.
  pub open_pods_there :
      (f : Error → Cmd (Machine W) PodStore) (m : Machine W) (v : PodData)
      → m.pod_disk.entry ≢ missing
      → m.pod_disk.file ≡ holds (json v)
      → (s : PodStore) × (open_pods f m ≡ (returns (ok s), save_pods s m))
        × (s.value ≡ v)
        × (s.disk ≡ m.pod_disk)
  unfolding open_pods
  open_pods_there f m v e h =
      let (s, made, on_disk) = new_pod_store_there m.pod_disk e in
      let loads = load_pod_data_there s v (ap (λ d. d.file) on_disk ∙ h) in
      (record s { value = v }, rw (made, loads, open_pods) refl, refl, on_disk)

  answered :
      (tenant : Text) (m : Machine W)
      → ((if is_empty tenant then fail tenant_name_not_found else pure tenant) m).0
        ≡ tenant_or_error tenant
  answered tenant m = ground arith

  -- Where the pod store is on disk with a value, the search for a pod's tenant is one in that value.
  pub find_tenant_there :
      (m : Machine W) (v : PodData) (pod : Text)
      → m.pod_disk.entry ≢ missing
      → m.pod_disk.file ≡ holds (json v)
      → (find_tenant pod m).0 ≡ tenant_or_error (tenant_of_pod pod v.pods)
  unfolding find_tenant get_tenant_pod
  find_tenant_there m v pod e h =
      let (s, opened, value, _) = open_pods_there fail m v e h in
      let found : (get_tenant_pod pod m).0 ≡ returns (ok (tenant_of_pod pod v.pods)) =
        ap (λ z. z.0)
          (bind_ok (open_pods fail) (λ r. pure (tenant_of_pod pod r.value.pods)) m s
            (ap (λ z. z.0) opened))
        ∙ ap (λ x. returns (ok (tenant_of_pod pod x.pods))) value in
      ap (λ z. z.0)
        (bind_ok (get_tenant_pod pod)
          (λ t. if is_empty t then fail tenant_name_not_found else pure t) m
          (tenant_of_pod pod v.pods) found)
      ∙ answered (tenant_of_pod pod v.pods) (get_tenant_pod pod m).1

  -- A pod store that opens is there afterwards, and takes writes as it did before.
  open_pods-disk :
      (m : Machine W) (s : PodStore)
      → (open_pods (λ _. crash) m).0 ≡ returns (ok s)
      → (s.disk.entry ≢ missing)
        × (s.disk.opens ≡ m.pod_disk.opens)
        × (s.disk.writes ≡ m.pod_disk.writes)
  unfolding open_pods new_pod_store new_store make_directory load_pod_data load_value write_file
  open_pods-disk m s h = ((λ z. ground arith), ground arith, ground arith)

  -- What the handler writes.
  pub write_pods-disk :
      (pods : Dict Text) (s : PodStore) (m : Machine W)
      → s.disk.opens ≡ true
      → s.disk.writes ≡ true
      → ((write_pods pods s m).1.pod_disk.entry ≡ s.disk.entry)
        × ((write_pods pods s m).1.pod_disk.file ≡ holds (json (record { pods = pods })))
        × ((write_pods pods s m).1.pod_disk.opens ≡ true)
        × ((write_pods pods s m).1.pod_disk.writes ≡ true)
  unfolding write_pods store_pod_data store_value write_file save_pods
  write_pods-disk pods s m o w = ground (arith, o, w)

  -- What the handler leaves on disk for a pod that has a network of its own.
  pub handle_pod_add-disk :
      (pod : Pod) (m : Machine W)
      → pod.host_network ≡ false
      → m.pod_disk.opens ≡ true
      → m.pod_disk.writes ≡ true
      → (handle_pod_add pod m).0 ≡ returns (ok tt)
      → (pods : Dict Text) × ((handle_pod_add pod m).1.pod_disk.entry ≢ missing)
        × ((handle_pod_add pod m).1.pod_disk.file
            ≡ holds (json (record { pods = insert pod.name (tenant_of_annotation pod) pods })))
  unfolding handle_pod_add register_pod
  handle_pod_add-disk pod m guest o w done =
      let next : PodStore → Cmd (Machine W) (Unit {0}) =
        λ s. if s.mutex then register_pod pod s else crash in
      let (s, opened, rest) = ok_of_bind (open_pods (λ _. crash)) next m tt done in
      let (there, same_opens, same_writes) = open_pods-disk m s opened in
      let m' = (open_pods {W = W} (λ _. crash) m).1 in
      let pods = insert pod.name (tenant_of_annotation pod) s.value.pods in
      let written = write_pods-disk pods s m' (same_opens ∙ o) (same_writes ∙ w) in
      let step : handle_pod_add pod m ≡ next s m' =
        bind_ok (open_pods (λ _. crash)) next m s opened in
      let step2 : next s m' ≡ write_pods pods s m' = ground (arith, guest, rest) in
      (s.value.pods, rw (step, step2) (λ z. there (sym written.0 ∙ z)), rw (step, step2) written.1)

  -- Once the daemon's handler has returned for a pod that has a network of its own, on a node whose pod
  -- store can be written, the plugin finds for the pod's name the tenant of the pod's annotation, or the
  -- default tenant where it has none.
  pub find_tenant-handle_pod_add :
      (pod : Pod) (m : Machine W)
      → pod.host_network ≡ false
      → m.pod_disk.opens ≡ true
      → m.pod_disk.writes ≡ true
      → (handle_pod_add pod m).0 ≡ returns (ok tt)
      → (find_tenant pod.name (handle_pod_add pod m).1).0 ≡ returns (ok (tenant_of_annotation pod))
  find_tenant-handle_pod_add pod m guest o w done =
      let (pods, there, file) = handle_pod_add-disk pod m guest o w done in
      let tenant = tenant_of_annotation pod in
      let found = tenant_of_pod-insert_self pod.name tenant pods (tenant_of_annotation_some pod) in
      find_tenant_there (handle_pod_add pod m).1 (record { pods = insert pod.name tenant pods })
        pod.name there file
      ∙ ap tenant_or_error found
      ∙ rw (tenant_of_annotation_some pod) refl

-- ===== src/Cni/PodEntries.antt =====
-- `deletePod` of cmd/tenantcni/main.go, alone and with the daemon's pod handler between its reading and its
-- writing of the pod store.
use mathlib.Core.Path.{subst}
use tenant_cni.Base.{
  Text, [], ap, arith, err, false, if◌then◌else◌, inl, inr, is_empty, none, ok, refl, returns, sym,
  tenant_name_not_found, true, ◌∙◌, ◌∷◌, ◌≡◌, ◌≢◌,
}
use tenant_cni.Base.Dict.{Dict, NodupKeys, erase, erase-NodupKeys, lookup, lookup-erase_self}
use tenant_cni.Cni.Commands.{delete_pod_entry, find_tenant, get_tenant_pod, tenant_of_pod}
use tenant_cni.Cni.PodTenant.{
  find_tenant-handle_pod_add, find_tenant_there, open_pods_there, tenant_or_error, write_pods-disk,
}
use tenant_cni.Controller.Events.{handle_pod_add, tenant_of_annotation}
use tenant_cni.Host.{Cmd, fail, pure}
use tenant_cni.Host.Laws.{bind_cases, bind_ok}
use tenant_cni.Ipam.PodStore.{PodStore}
use tenant_cni.Ipam.Store.{Disk, holds, json, missing}
use tenant_cni.Ipam.Types.{PodData}
use tenant_cni.K8s.{Pod}
use tenant_cni.Machine.{Machine, open_pods, save_pods, write_pods}

tenant_of_pod-erase_ne :
    (pod other : Text) (pods : Dict Text)
    → other ≢ pod
    → tenant_of_pod other (erase pod pods) ≡ tenant_of_pod other pods
unfolding tenant_of_pod erase
tenant_of_pod-erase_ne pod other [] apart = refl
tenant_of_pod-erase_ne pod other ((x, tenant) ∷ pods) apart =
    ground (arith, tenant_of_pod-erase_ne pod other pods apart, apart)

tenant_of_pod_absent :
    (pod : Text) (pods : Dict Text) → lookup pod pods ≡ none → tenant_of_pod pod pods ≡ []
unfolding tenant_of_pod
tenant_of_pod_absent pod [] h = refl
tenant_of_pod_absent pod ((x, tenant) ∷ pods) h = ground (arith, tenant_of_pod_absent pod pods, h)

lookup-erase-none :
    (j k : Text) (pods : Dict Text) → lookup j pods ≡ none → lookup j (erase k pods) ≡ none
unfolding erase
lookup-erase-none j k [] h = refl
lookup-erase-none j k ((x, tenant) ∷ pods) h = ground (arith, lookup-erase-none j k pods, h)

-- The pod store is there, can be written, and holds the pods, each once.
pub record HoldsPods (d : Disk PodData) (pods : Dict Text) : Type 0 where
  pub there : d.entry ≢ missing
  pub openable : d.opens ≡ true
  pub writable : d.writes ≡ true
  pub file : d.file ≡ holds (json (record { pods = pods }))
  pub keys_once : NodupKeys pods

module _ {W : Type 0} where
  -- The second half of `deletePod`, on a store that was read at any time: the pod store that is left holds
  -- what was read, without the pod.
  abbrev pub write_without : Text → PodStore → Cmd (Machine W) (Unit {0})
  write_without pod s = write_pods (erase pod s.value.pods) s

  find_tenant-write_without :
      (pod other : Text) (s : PodStore) (m : Machine W)
      → s.disk.entry ≢ missing
      → s.disk.opens ≡ true
      → s.disk.writes ≡ true
      → (find_tenant other (write_without pod s m).1).0
        ≡ tenant_or_error (tenant_of_pod other (erase pod s.value.pods))
  find_tenant-write_without pod other s m there o w =
      let (same_entry, file, _, _) = write_pods-disk (erase pod s.value.pods) s m o w in
      find_tenant_there (write_without pod s m).1 (record { pods = erase pod s.value.pods }) other
        (λ e. there (sym same_entry ∙ e)) file

  -- What `deletePod` leaves.
  pub delete_pod_entry-HoldsPods :
      (pod : Text) (pods : Dict Text) (m : Machine W)
      → HoldsPods m.pod_disk pods
      → HoldsPods (delete_pod_entry pod m).1.pod_disk (erase pod pods)
  unfolding delete_pod_entry
  delete_pod_entry-HoldsPods pod pods m h =
      let v : PodData = record { pods = pods } in
      let (s, opens, value, disk) = open_pods_there fail m v h.there h.file in
      let m1 = (open_pods fail m).1 in
      let left = (write_without pod s m1).1.pod_disk in
      let (same_entry, file, o, w) =
        write_pods-disk (erase pod s.value.pods) s m1 (ap (λ d. d.opens) disk ∙ h.openable)
          (ap (λ d. d.writes) disk ∙ h.writable) in
      let step : delete_pod_entry pod m ≡ write_without pod s m1 =
        bind_ok (open_pods fail) (write_without pod) m s (ap (λ z. z.0) opens) in
      let held : HoldsPods left (erase pod pods) = record {
        there = λ e. h.there (sym (same_entry ∙ ap (λ d. d.entry) disk) ∙ e);
        openable = o;
        writable = w;
        file = file ∙ ap (λ x. holds (json (record { pods = erase pod x.pods }))) value;
        keys_once = erase-NodupKeys pod pods h.keys_once;
      } in
      subst (λ z. HoldsPods z.1.pod_disk (erase pod pods)) (sym step) held

  -- Once a pod is off the store, its tenant is not found, and that of each other pod is as before.
  pub find_tenant_erased :
      (pod other : Text) (pods : Dict Text) (m m' : Machine W)
      → HoldsPods m.pod_disk pods
      → HoldsPods m'.pod_disk (erase pod pods)
      → other ≢ pod
      → ((find_tenant pod m').0 ≡ returns (err tenant_name_not_found))
        × ((find_tenant other m').0 ≡ (find_tenant other m).0)
  find_tenant_erased pod other pods m m' h g apart =
      let search = find_tenant_there m' (record { pods = erase pod pods }) in
      let gone =
        tenant_of_pod_absent pod (erase pod pods) (lookup-erase_self pod pods h.keys_once) in
      (
        search pod g.there g.file ∙ ap tenant_or_error gone,
        search other g.there g.file
            ∙ ap tenant_or_error (tenant_of_pod-erase_ne pod other pods apart)
            ∙ sym (find_tenant_there m (record { pods = pods }) other h.there h.file),
      )

  find_tenant_state : (pod : Text) (m : Machine W) → (find_tenant pod m).1 ≡ (open_pods fail m).1
  unfolding find_tenant get_tenant_pod
  find_tenant_state pod m =
      let read : PodStore → Cmd (Machine W) Text = λ s. pure (tenant_of_pod pod s.value.pods) in
      let answer : Text → Cmd (Machine W) Text =
        λ tenant. if is_empty tenant then fail tenant_name_not_found else pure tenant in
      let got : (get_tenant_pod pod m).1 ≡ (open_pods fail m).1 =
        elim (bind_cases (open_pods fail) read m) [ inl (s, e) ↦ ap (λ z. z.1) e | inr e ↦ e ] in
      let answers : (tenant : Text) (z : Machine W) → (answer tenant z).1 ≡ z =
        λ tenant z. ground arith in
      elim (bind_cases (get_tenant_pod pod) answer m) [
        | inl (tenant, e) ↦ ap (λ z. z.1) e ∙ answers tenant (get_tenant_pod pod m).1 ∙ got
        | inr e ↦ e ∙ got
      ]

  -- The search for a tenant leaves the pod store as it is.
  pub find_tenant-HoldsPods :
      (pod : Text) (pods : Dict Text) (m : Machine W)
      → HoldsPods m.pod_disk pods
      → HoldsPods (find_tenant pod m).1.pod_disk pods
  unfolding save_pods
  find_tenant-HoldsPods pod pods m h =
      let (s, opens, _, disk) = open_pods_there fail m (record { pods = pods }) h.there h.file in
      let same : (find_tenant pod m).1.pod_disk ≡ m.pod_disk =
        ap (λ z. z.pod_disk) (find_tenant_state pod m) ∙ ap (λ z. z.1.pod_disk) opens ∙ disk in
      subst (λ d. HoldsPods d pods) (sym same) h

  -- A pod that is lost: where the pod store is there, can be written and holds each pod once, where the
  -- daemon's `handlePodAdd` returns for a new pod that has a network of its own, and where the plugin's
  -- `deletePod` for any pod has read the pod store before that and writes it afterwards. Between the
  -- two the plugin finds the new pod's tenant; after the write it finds none.
  pub handle_pod_add_lost :
      (old : Text) (pod : Pod) (pods : Dict Text) (m : Machine W)
      → HoldsPods m.pod_disk pods
      → lookup pod.name pods ≡ none
      → pod.host_network ≡ false
      → let m1 = (open_pods {W = W} fail m).1 in
        (handle_pod_add pod m1).0 ≡ returns (ok tt)
        → let m2 = (handle_pod_add pod m1).1 in
          (s : PodStore) × ((open_pods fail m).0 ≡ returns (ok s))
          × ((find_tenant pod.name m2).0 ≡ returns (ok (tenant_of_annotation pod)))
          × ((find_tenant pod.name (write_without old s m2).1).0
              ≡ returns (err tenant_name_not_found))
  unfolding save_pods
  handle_pod_add_lost old pod pods m h fresh guest done =
      let v : PodData = record { pods = pods } in
      let (s, opens, value, disk) = open_pods_there fail m v h.there h.file in
      let m1 = (open_pods {W = W} fail m).1 in
      let m2 = (handle_pod_add pod m1).1 in
      let disk1 : m1.pod_disk ≡ m.pod_disk = ap (λ z. z.1.pod_disk) opens ∙ disk in
      let gone =
        tenant_of_pod_absent pod.name (erase old pods)
          (lookup-erase-none pod.name old pods fresh) in
      (
        s,
        ap (λ z. z.0) opens,
        find_tenant-handle_pod_add pod m1 guest (ap (λ d. d.opens) disk1 ∙ h.openable)
            (ap (λ d. d.writes) disk1 ∙ h.writable) done,
        find_tenant-write_without old pod.name s m2
              (λ e. h.there (sym (ap (λ d. d.entry) disk) ∙ e))
              (ap (λ d. d.opens) disk ∙ h.openable) (ap (λ d. d.writes) disk ∙ h.writable)
            ∙ ap (λ x. tenant_or_error (tenant_of_pod pod.name (erase old x.pods))) value
            ∙ ap tenant_or_error gone,
      )

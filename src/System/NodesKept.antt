-- ===== src/System/NodesKept.antt =====
-- What leaves the nodes' files alone: the plugin's commands and the informers' handlers.
pub mod Daemon
use tenant_cni.Backend.Veth.{check_veth}
use tenant_cni.Base.{
  Bool, Option, Outcome, Result, Text, ap, arith, err, false, if◌then◌else◌, none, ok, panics, refl,
  returns, runs_on, some, true, ℕ, ◌∙◌, ◌≡◌,
}
use tenant_cni.Base.Dict.{erase}
use tenant_cni.Cni.Add.{add_to, container_of}
use tenant_cni.Cni.Args.{get_regex}
use tenant_cni.Cni.Attach.{attach-Keeps}
use tenant_cni.Cni.Check.{check_on, look_up}
use tenant_cni.Cni.Commands.{
  CmdArgs, CniResult, allocate_on_node, attach, cmd_add, cmd_check, cmd_del, delete_pod_entry,
  find_tenant, pod_name_of,
}
use tenant_cni.Cni.Del.{del_from, release, unplug, unplug-Keeps}
use tenant_cni.Cni.Tenants.{Keeps, Keeps-bind, find_tenant-Keeps}
use tenant_cni.Host.{Cmd, attempt, deref, fail, ◌>>=◌, ◌>>◌}
use tenant_cni.Host.Laws.{attempt_state}
use tenant_cni.Host.Netlink.{Netlink}
use tenant_cni.Ipam.Address.{TenantIpam, new_tenant_ipam}
use tenant_cni.Ipam.TenantStore.{TenantStore}
use tenant_cni.Ipam.Types.{Bridge}
use tenant_cni.Machine.{
  Machine, on_outside, on_tenant, open_pods, open_tenant, save_pods, save_tenant, write_pods,
}
use tenant_cni.Net.Addr.{Ipv6Text}
use tenant_cni.Net.Ip.{Ip}
use tenant_cni.System.Served.{OnlyRuns, Runs-invariant}

module _ {W : Type 0} where
  -- A command that leaves the nodes' files alone.
  abbrev pub KeepsNodes : {A : Type 0} → Cmd (Machine W) A → Type 0
  KeepsNodes = Keeps (λ m. m.node_disks)

  pub KeepsNodes-bind :
      {A B : Type 0} (c : Cmd (Machine W) A) (f : A → Cmd (Machine W) B)
      → KeepsNodes c
      → ((a : A) → KeepsNodes (f a))
      → KeepsNodes (c >>= f)
  KeepsNodes-bind = Keeps-bind (λ m. m.node_disks)

  pub on_outside-KeepsNodes : (A : Type 0) (c : Cmd W A) → KeepsNodes (on_outside c)
  unfolding on_outside
  on_outside-KeepsNodes A c m = refl

  pub deref-KeepsNodes :
      {A B : Type 0} (o : Option A) (f : A → Cmd (Machine W) B)
      → ((a : A) → KeepsNodes (f a))
      → KeepsNodes (deref o >>= f)
  deref-KeepsNodes none f kf m = refl
  deref-KeepsNodes (some a) f kf m = kf a m

  pub if_KeepsNodes :
      {A : Type 0} (b : Bool) (x y : Cmd (Machine W) A)
      → KeepsNodes x
      → KeepsNodes y
      → KeepsNodes (if b then x else y)
  if_KeepsNodes true x y kx ky = kx
  if_KeepsNodes false x y kx ky = ky

  attempt-KeepsNodes : {A : Type 0} (x : Cmd (Machine W) A) → KeepsNodes x → KeepsNodes (attempt x)
  attempt-KeepsNodes x kx m = ap (λ z. z.node_disks) (attempt_state x m) ∙ kx m

  -- A call on the outside, and what follows, with its outcome or without.
  pub told_KeepsNodes :
      {A B : Type 0} (x : Cmd W A) (f : A → Cmd (Machine W) B)
      → ((a : A) → KeepsNodes (f a))
      → KeepsNodes (on_outside x >>= f)
  told_KeepsNodes x f = KeepsNodes-bind (on_outside x) f (on_outside-KeepsNodes _ x)

  pub asked_KeepsNodes :
      {A B : Type 0} (x : Cmd W A) (f : Result A → Cmd (Machine W) B)
      → ((r : Result A) → KeepsNodes (f r))
      → KeepsNodes (attempt (on_outside x) >>= f)
  asked_KeepsNodes x f =
      KeepsNodes-bind (attempt (on_outside x)) f
        (attempt-KeepsNodes (on_outside x) (on_outside-KeepsNodes _ x))

  open_pods-KeepsNodes : KeepsNodes (open_pods {W = W} fail)
  unfolding open_pods save_pods
  open_pods-KeepsNodes m = ground arith

  find_tenant-KeepsNodes : (pod : Text) → KeepsNodes (find_tenant {W = W} pod)
  find_tenant-KeepsNodes pod = find_tenant-Keeps (λ m. m.node_disks) pod open_pods-KeepsNodes

  delete_pod_entry-KeepsNodes : (pod : Text) → KeepsNodes (delete_pod_entry {W = W} pod)
  unfolding delete_pod_entry write_pods save_pods
  delete_pod_entry-KeepsNodes pod =
      KeepsNodes-bind (open_pods fail) (λ s. write_pods (erase pod s.value.pods) s)
        open_pods-KeepsNodes (λ _ _. refl)

  open_tenant-fail-KeepsNodes : (owner : Text) → KeepsNodes (open_tenant {W = W} fail owner)
  unfolding open_tenant save_tenant new_tenant_ipam
  open_tenant-fail-KeepsNodes owner m = ground arith

  on_tenant-KeepsNodes :
      {A : Type 0} (name : Text) (o : Outcome (Result A × TenantStore))
      → KeepsNodes (on_tenant {W = W} name o)
  unfolding on_tenant save_tenant
  on_tenant-KeepsNodes name panics m = refl
  on_tenant-KeepsNodes name runs_on m = refl
  on_tenant-KeepsNodes name (returns (ok a, s)) m = refl
  on_tenant-KeepsNodes name (returns (err e, s)) m = refl

  retry-KeepsNodes :
      {A : Type 0} (retry : Cmd (Machine W) A → Cmd (Machine W) A) (f : Cmd (Machine W) A)
      → OnlyRuns retry
      → KeepsNodes f
      → KeepsNodes (retry f)
  retry-KeepsNodes retry f only kf m =
      Runs-invariant (λ z. z.node_disks ≡ m.node_disks) f m (retry f m).1 (λ x e. kf x ∙ e) refl
        (only f m)

  module _ (n : Netlink W) (v6 : Ipv6Text) (next_ip : Ip → Ip)
      (retry : Cmd (Machine W) Text → Cmd (Machine W) Text) (only_runs : OnlyRuns retry)
      (rounds : ℕ) where
    -- A command on the store of the pod's tenant.
    command_KeepsNodes :
        {A : Type 0} (k : Text → TenantIpam → Cmd (Machine W) A) (args : Text)
        → ((pod : Text) (tim : TenantIpam) → KeepsNodes (k pod tim))
        → KeepsNodes (
            pod_name_of args >>= λ pod.
            retry (find_tenant pod) >>= λ owner. open_tenant fail owner >>= k pod)
    unfolding pod_name_of
    command_KeepsNodes k args go =
        let go_on : Text → Text → Cmd (Machine W) _ =
          λ pod owner. open_tenant fail owner >>= k pod in
        deref-KeepsNodes (get_regex args) (λ pod. retry (find_tenant pod) >>= go_on pod)
          (λ pod.
            KeepsNodes-bind (retry (find_tenant pod)) (go_on pod)
              (retry-KeepsNodes retry (find_tenant pod) only_runs (find_tenant-KeepsNodes pod))
              (λ owner.
                KeepsNodes-bind (open_tenant fail owner) (k pod) (open_tenant-fail-KeepsNodes owner)
                  (go pod)))

    pub cmd_add-KeepsNodes : (a : CmdArgs) → KeepsNodes (cmd_add n v6 next_ip retry rounds a)
    unfolding cmd_add allocate_on_node
    cmd_add-KeepsNodes a =
        command_KeepsNodes (add_to n v6 next_ip retry rounds a) a.args (λ pod tim.
          let info = container_of n v6 next_ip retry rounds a pod in
          let allocate = allocate_on_node n v6 next_ip retry rounds info tim in
          let joined : Bridge → Ip × TenantStore → Cmd (Machine W) CniResult =
            λ b r. attach n v6 next_ip retry rounds a b r.0 r.1 in
          deref-KeepsNodes tim.tenant_store.value.bridge (λ b. allocate >>= joined b)
            (λ b. KeepsNodes-bind allocate (joined b) (on_tenant-KeepsNodes tim.tenant_name _) (λ r.
              attach-Keeps n v6 next_ip retry rounds (λ m. m.node_disks) on_outside-KeepsNodes a b
                r.0 r.1)))

    pub cmd_del-KeepsNodes : (a : CmdArgs) → KeepsNodes (cmd_del n v6 next_ip retry rounds a)
    unfolding cmd_del
    cmd_del-KeepsNodes a =
        command_KeepsNodes (del_from n v6 next_ip retry rounds a) a.args (λ pod tim.
          KeepsNodes-bind (release n v6 next_ip retry rounds a tim)
            (λ _. unplug n v6 next_ip retry rounds a pod) (on_tenant-KeepsNodes tim.tenant_name _)
            (λ _.
              unplug-Keeps n v6 next_ip retry rounds (λ m. m.node_disks) on_outside-KeepsNodes a pod
                (delete_pod_entry-KeepsNodes pod)))

    pub cmd_check-KeepsNodes : (a : CmdArgs) → KeepsNodes (cmd_check n v6 next_ip retry rounds a)
    unfolding cmd_check
    cmd_check-KeepsNodes a =
        command_KeepsNodes (check_on n v6 next_ip retry rounds a) a.args (λ pod tim.
          KeepsNodes-bind (look_up n v6 next_ip retry rounds a tim)
            (λ r. on_outside (n.get_ns a.netns) >> on_outside (check_veth n a.netns a.if_name r.0))
            (on_tenant-KeepsNodes tim.tenant_name _)
            (λ r.
              told_KeepsNodes (n.get_ns a.netns)
                (λ _. on_outside (check_veth n a.netns a.if_name r.0))
                (λ _. on_outside-KeepsNodes _ (check_veth n a.netns a.if_name r.0))))

-- ===== src/System/Plugin.antt =====
-- The plugin's commands on a node where a tenant's file serves its pods: it does so afterwards, however
-- the command ends, and whichever tenant it is for.
use mathlib.Core.Path.{subst}
use tenant_cni.Backend.Veth.{check_veth}
use tenant_cni.Base.{
  Error, Option, Outcome, Result, Text, ap, arith, err, inl, inr, none, ok, panics, refl, returns,
  runs_on, some, sym, ℕ, ◌≡◌, ◌≢◌,
}
use tenant_cni.Cni.Add.{add_to, container_of}
use tenant_cni.Cni.Args.{get_regex}
use tenant_cni.Cni.Attach.{attach-KeepsTenants}
use tenant_cni.Cni.Check.{check_on, look_up}
use tenant_cni.Cni.Commands.{
  CmdArgs, allocate_on_node, attach, cmd_add, cmd_check, cmd_del, find_tenant, pod_name_of,
}
use tenant_cni.Cni.Del.{del_from, release, unplug, unplug-KeepsTenants}
use tenant_cni.Cni.Tenants.{find_tenant-KeepsTenants}
use tenant_cni.Host.{Cmd, fail, ◌>>=◌, ◌>>◌}
use tenant_cni.Host.Netlink.{Netlink}
use tenant_cni.Ipam.Address.{TenantIpam, allocate_ip, release_ip}
use tenant_cni.Ipam.Address.Refinement.{IsSparedBy, allocated, checked, released}
use tenant_cni.Ipam.TenantStore.{TenantStore}
use tenant_cni.Ipam.Types.{ContainerNetInfo}
use tenant_cni.Machine.{Machine, on_outside, on_tenant, open_tenant, put, put_self, save_tenant}
use tenant_cni.Net.Addr.{Ipv6Text}
use tenant_cni.Net.Ip.{Ip}
use tenant_cni.Net.RoundTrip.{IsBytes}
use tenant_cni.System.Opening.{IsHandle, fail-GivesUp, open_tenant_then}
use tenant_cni.System.Served.{
  Call-IsServed, IsServed, OnlyRuns, SparedIn, SparingCall, Watch, spared_always,
}
use tenant_cni.System.Serves.{
  IsServedOn, KeepsTenants-Serves, Serves, Serves-bind, bind_at, deref_at, on_outside-Serves,
  put_other, retry-Serves,
}

module _ {W : Type 0} (v6 : Ipv6Text) (next_ip : Ip → Ip)
    (bytes_next : (ip : Ip) → IsBytes (next_ip ip)) (watch : Watch) (name : Text) where
  -- A call on the allocator whose store is written.
  saved_at :
      (tim : TenantIpam) (s' : TenantStore) (m : Machine W)
      → IsServedOn v6 watch name m
      → IsHandle v6 watch name tim m
      → SparingCall v6 next_ip bytes_next watch tim.tenant_store s'
      → IsServedOn v6 watch name (save_tenant s' tim.tenant_name m)
  unfolding save_tenant
  saved_at tim s' m g (inl apart) call =
      subst (IsServed v6 watch name)
        (sym (put_other name tim.tenant_name s'.disk m.tenant_disks apart)) g
  saved_at tim s' m g (inr (stale, same)) call =
      let d = m.tenant_disks name in
      let this : name ≡ tim.tenant_name = sym (ap (λ x. x.tenant_name) same) in
      let served =
        Call-IsServed v6 next_ip bytes_next watch name d stale s' g
          (subst (λ x. SparingCall v6 next_ip bytes_next watch x.tenant_store s') same call) in
      subst (λ z. IsServed v6 watch name (put z s'.disk m.tenant_disks name)) this
        (subst (IsServed v6 watch name) (sym (put_self name s'.disk m.tenant_disks)) served)

  pub on_tenant_at :
      {A : Type 0} (tim : TenantIpam) (o : Outcome (Result A × TenantStore)) (m : Machine W)
      → IsServedOn v6 watch name m
      → IsHandle v6 watch name tim m
      → ((r : Result A) (s' : TenantStore)
          → o ≡ returns (r, s')
          → SparingCall v6 next_ip bytes_next watch tim.tenant_store s')
      → IsServedOn v6 watch name (on_tenant tim.tenant_name o m).1
  unfolding on_tenant
  on_tenant_at tim panics m g handle call = g
  on_tenant_at tim runs_on m g handle call = g
  on_tenant_at tim (returns (ok a, s')) m g handle call =
      saved_at tim s' m g handle (call (ok a) s' refl)
  on_tenant_at tim (returns (err e, s')) m g handle call =
      saved_at tim s' m g handle (call (err e) s' refl)

  module _ (n : Netlink W) (retry : Cmd (Machine W) Text → Cmd (Machine W) Text)
      (only_runs : OnlyRuns retry) (rounds : ℕ) where
    -- A command on the store of the pod's tenant.
    command_Serves :
        {A : Type 0} (k : Text → TenantIpam → Cmd (Machine W) A) (args : Text)
        → ((pod : Text) (tim : TenantIpam) (m : Machine W)
            → IsServedOn v6 watch name m
            → IsHandle v6 watch name tim m
            → IsServedOn v6 watch name (k pod tim m).1)
        → Serves v6 watch name (
            pod_name_of args >>= λ pod.
            retry (find_tenant pod) >>= λ owner. open_tenant fail owner >>= k pod)
    unfolding pod_name_of
    command_Serves k args go m g =
        let go_on : Text → Text → Cmd (Machine W) _ =
          λ pod owner. open_tenant fail owner >>= k pod in
        deref_at v6 watch name (get_regex args) (λ pod. retry (find_tenant pod) >>= go_on pod) m g
          (λ pod.
            Serves-bind v6 watch name (retry (find_tenant pod)) (go_on pod)
              (retry-Serves v6 watch name retry (find_tenant pod) only_runs (
                KeepsTenants-Serves v6 watch name (find_tenant pod) (find_tenant-KeepsTenants pod)))
              (λ owner. open_tenant_then v6 watch name fail owner (k pod) fail-GivesUp (go pod)) m
              g)

    -- What the plugin makes of the allocator's answer, which is the answer of a call.
    abbrev given :
        Outcome (Result Ip × Option Error × TenantStore) → Outcome (Result Ip × TenantStore)
    given o = elim o [
      | returns (err e, _, s) ↦ returns (err e, s)
      | returns (ok ip, none, s) ↦ returns (ok ip, s)
      | returns (ok ip, some e, s) ↦ returns (err e, s)
      | panics ↦ panics
      | runs_on ↦ runs_on
    ]

    given_call :
        (info : ContainerNetInfo) (tim : TenantIpam) (r : Result Ip) (s' : TenantStore)
        (o : Outcome (Result Ip × Option Error × TenantStore))
        → allocate_ip v6 next_ip rounds info tim ≡ o
        → given o ≡ returns (r, s')
        → SparingCall v6 next_ip bytes_next watch tim.tenant_store s'
    unfolding IsSparedBy
    given_call info tim r s' (returns (err e, failed, s)) same h = (
      allocated rounds info tim.tenant_name (err e) failed s' (ground (arith, same, h)),
      spared_always watch.lease,
    )
    given_call info tim r s' (returns (ok ip, none, s)) same h = (
      allocated rounds info tim.tenant_name (ok ip) none s' (ground (arith, same, h)),
      spared_always watch.lease,
    )
    given_call info tim r s' (returns (ok ip, some e, s)) same h = (
      allocated rounds info tim.tenant_name (ok ip) (some e) s' (ground (arith, same, h)),
      spared_always watch.lease,
    )
    given_call info tim r s' panics same h = cc
    given_call info tim r s' runs_on same h = cc

    abbrev taken_back :
        Outcome (Option Error × TenantStore) → Outcome (Result (Unit {0}) × TenantStore)
    taken_back o = elim o [
      | returns (none, s) ↦ returns (ok tt, s)
      | returns (some e, s) ↦ returns (err e, s)
      | panics ↦ panics
      | runs_on ↦ runs_on
    ]

    taken_back_call :
        (id : Text) (tim : TenantIpam) (r : Result (Unit {0})) (s' : TenantStore)
        (o : Outcome (Option Error × TenantStore))
        → release_ip id tim ≡ o
        → taken_back o ≡ returns (r, s')
        → SparedIn watch.lease (λ h. h ≢ id)
        → SparingCall v6 next_ip bytes_next watch tim.tenant_store s'
    unfolding IsSparedBy
    taken_back_call id tim r s' (returns (none, s)) same h spared =
        (released id tim.tenant_name none s' (ground (arith, same, h)), spared)
    taken_back_call id tim r s' (returns (some e, s)) same h spared =
        (released id tim.tenant_name (some e) s' (ground (arith, same, h)), spared)
    taken_back_call id tim r s' panics same h spared = cc
    taken_back_call id tim r s' runs_on same h spared = cc

    allocate_at :
        (info : ContainerNetInfo) (tim : TenantIpam) (m : Machine W)
        → IsServedOn v6 watch name m
        → IsHandle v6 watch name tim m
        → IsServedOn v6 watch name (allocate_on_node n v6 next_ip retry rounds info tim m).1
    unfolding allocate_on_node
    allocate_at info tim m g handle =
        on_tenant_at tim _ m g handle (λ r s' h. given_call info tim r s' _ refl h)

    pub cmd_add-Serves : (a : CmdArgs) → Serves v6 watch name (cmd_add n v6 next_ip retry rounds a)
    unfolding cmd_add
    cmd_add-Serves a =
        command_Serves (add_to n v6 next_ip retry rounds a) a.args (λ pod tim m g handle.
          let allocate =
            allocate_on_node n v6 next_ip retry rounds
              (container_of n v6 next_ip retry rounds a pod) tim in
          deref_at v6 watch name tim.tenant_store.value.bridge
            (λ b. allocate >>= λ r. attach n v6 next_ip retry rounds a b r.0 r.1) m g
            (λ b.
              bind_at v6 watch name allocate (λ r. attach n v6 next_ip retry rounds a b r.0 r.1) m
                (allocate_at (container_of n v6 next_ip retry rounds a pod) tim m g handle)
                (λ r.
                  KeepsTenants-Serves v6 watch name (attach n v6 next_ip retry rounds a b r.0 r.1)
                    (attach-KeepsTenants n v6 next_ip retry rounds a b r.0 r.1))))

    pub cmd_del-Serves :
        (a : CmdArgs)
        → SparedIn watch.lease (λ h. h ≢ a.container_id)
        → Serves v6 watch name (cmd_del n v6 next_ip retry rounds a)
    unfolding cmd_del
    cmd_del-Serves a spared =
        command_Serves (del_from n v6 next_ip retry rounds a) a.args (λ pod tim m g handle.
          bind_at v6 watch name (release n v6 next_ip retry rounds a tim)
            (λ _. unplug n v6 next_ip retry rounds a pod) m
            (on_tenant_at tim _ m g handle
              (λ r s' h. taken_back_call a.container_id tim r s' _ refl h spared))
            (λ _.
              KeepsTenants-Serves v6 watch name (unplug n v6 next_ip retry rounds a pod)
                (unplug-KeepsTenants n v6 next_ip retry rounds a pod)))

    pub cmd_check-Serves :
        (a : CmdArgs) → Serves v6 watch name (cmd_check n v6 next_ip retry rounds a)
    unfolding cmd_check IsSparedBy
    cmd_check-Serves a =
        command_Serves (check_on n v6 next_ip retry rounds a) a.args (λ pod tim m g handle.
          bind_at v6 watch name (look_up n v6 next_ip retry rounds a tim)
            (λ r. on_outside (n.get_ns a.netns) >> on_outside (check_veth n a.netns a.if_name r.0))
            m
            (on_tenant_at tim _ m g handle (λ r s' h.
              (checked a.container_id tim.tenant_name r s' h, spared_always watch.lease)))
            (λ r.
              Serves-bind v6 watch name (on_outside (n.get_ns a.netns))
                (λ _. on_outside (check_veth n a.netns a.if_name r.0))
                (on_outside-Serves v6 watch name (n.get_ns a.netns))
                (λ _. on_outside-Serves v6 watch name (check_veth n a.netns a.if_name r.0))))

-- ===== src/Ipam/Removal.antt =====
-- `DeleteTenantStore` where everything can be removed.
use tenant_cni.Base.{
  Error, List, Option, Text, [], arith, bytes, if◌then◌else◌, none, ok, refl, text_eq, ◌++◌, ◌∷◌,
  ◌≡◌,
}
use tenant_cni.Ipam.Store.{Disk, absent, missing}
use tenant_cni.Ipam.TenantStore.{delete_tenant_store, remove_entries}
use tenant_cni.Ipam.Types.{TenantData}

-- Where every entry can be removed, none is left and no error is reported.
remove_entries_all :
    (file : Text) (remove : Text → Option Error) (names : List Text) (d : Disk TenantData)
    → ((x : Text) → remove x ≡ none)
    → (remove_entries file remove names d).0 ≡ none
unfolding remove_entries
remove_entries_all file remove [] d h = refl
remove_entries_all file remove (x ∷ names) d h =
    rw (h x, remove_entries)
      (remove_entries_all file remove names
        (if text_eq x file then record d { file = absent } else d) h)

pub delete_tenant_store_all :
    (name : Text) (names : List Text) (remove : Text → Option Error) (d : Disk TenantData)
    → ((x : Text) → remove x ≡ none)
    → ((delete_tenant_store name (ok names) remove d).1.entry ≡ missing)
      × ((delete_tenant_store name (ok names) remove d).1.file ≡ absent)
unfolding delete_tenant_store
delete_tenant_store_all name names remove d h =
    ground (arith, remove_entries_all (name ++ bytes ".json") remove names d h, h [])

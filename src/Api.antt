-- ===== src/Api.antt =====
-- pkg/apis/jovik31.dev/v1alpha1/types.go: the custom resource, without the metadata that the program
-- does not read.
use tenant_cni.Base.{List, Text}
use tenant_cni.Net.Decimal.{ℤ}

pub record Node : Type 0 where
  pub name : Text
  pub vtep_mac : Text
  pub vtep_ip : Text
  pub node_ip : Text

pub record TenantSpec : Type 0 where
  pub name : Text
  pub vni : ℤ
  pub subnet_prefix : ℤ
  pub nodes : List Node

-- `object_name` is `ObjectMeta.Name`.
pub record Tenant : Type 0 where
  pub object_name : Text
  pub spec : TenantSpec

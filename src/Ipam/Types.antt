-- ===== src/Ipam/Types.antt =====
-- pkg/network/ipam/types.go. A nil map and an empty map are both `[]`: every loader makes the maps,
-- so that no write meets a nil one.
use tenant_cni.Base.{Text, Option, List}
use tenant_cni.Base.Dict.{Dict}
use tenant_cni.Net.Addr.{Addr, Prefix}
use tenant_cni.Net.Decimal.{ℤ}

pub record NodeData : Type 0 where
  pub node_ip : Text
  pub node_cidr : Text
  pub available_list : List Text
  pub tenant_list : Dict Prefix

pub record Bridge : Type 0 where
  pub name : Text
  pub gateway : Addr

pub record Vxlan : Type 0 where
  pub vtep_name : Text
  pub vtep_ip : Text
  pub vtep_mac : Text
  pub vni : ℤ

pub record ContainerNetInfo : Type 0 where
  pub id : Text
  pub if_name : Text
  pub net_ns : Text
  pub name : Text

-- `none` is a nil pointer.
pub record TenantData : Type 0 where
  pub tenant_name : Text
  pub tenant_prefix : ℤ
  pub tenant_cidr : Text
  pub bridge : Option Bridge
  pub vxlan : Option Vxlan
  pub ips : Dict ContainerNetInfo
  pub last : Text

pub record PodData : Type 0 where
  pub pods : Dict Text

-- ===== src/Net.antt =====
-- What the program uses of Go's packages net and net/netip (Go 1.22, go.mod): addresses as bytes and
-- as values, their texts, prefixes and masks. The text form of IPv6 addresses is an argument,
-- `Ipv6Text`; everything about IPv4 is written out.
pub mod Decimal
pub mod Addr
pub mod Ip
pub mod Laws
pub mod RoundTrip
pub mod PrefixText
pub mod ByteNetwork

-- ===== src/Server/Address/Scopes.antt =====
-- The local scopes of IPv6 in the test of a global address.
use epoxy_tls.Base.{◌/◌, ◌<◌, ◌≡◌, arith, false, ◌==◌, ◌&&◌, not}
use epoxy_tls.Server.Address.{Ipv6Addr, v6, is_global, ipv6_is_global}

-- A unique-local address (fc00::/7) does not count as global; every link-local one (fe80::/10)
-- does, since the code tests the unique-local mask twice.
pub local_scopes :
    (x : Ipv6Addr)
    → x.s0 < 65536
    → ((x.s0 / 512 == 126 && is_global (v6 x)) ≡ false)
      × ((x.s0 / 64 == 1018 && not (is_global (v6 x))) ≡ false)
unfolding is_global ipv6_is_global
local_scopes x h = (ground arith, ground arith)

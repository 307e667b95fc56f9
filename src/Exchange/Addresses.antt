-- ===== src/Exchange/Addresses.antt =====
-- `combineHostAndPort`.
use dftp.Base.{◌∷◌, ◌++◌, Text, byte_eq, returns, panics, ◌≡◌}
use dftp.Strings.Laws.{Lacks, split-append, split-Lacks, split-cons}
use dftp.Exchange.{combine_host_and_port}

-- The host is what stands before the first colon of the first address, the port what stands between
-- the first colon of the second address and its next one.
pub combine_host_and_port_lem :
    (host rest host2 port rest2 : Text)
    → Lacks b':' host
    → Lacks b':' host2
    → Lacks b':' port
    → (combine_host_and_port (host ++ b':' ∷ rest) (host2 ++ b':' ∷ port)
        ≡ returns (host ++ b':' ∷ port))
      × (combine_host_and_port (host ++ b':' ∷ rest) (host2 ++ b':' ∷ (port ++ b':' ∷ rest2))
          ≡ returns (host ++ b':' ∷ port))
unfolding combine_host_and_port
combine_host_and_port_lem host rest host2 port rest2 h h2 p = (
  rw (split-append host rest b':' h, split-append host2 port b':' h2, split-Lacks port b':' p),
  rw (
    split-append host rest b':' h,
    split-append host2 (port ++ b':' ∷ rest2) b':' h2,
    split-append port rest2 b':' p,
  ),
)

-- A second address without a colon is a panic.
pub combine_host_and_port-panics :
    (addr1 addr2 : Text) → Lacks b':' addr2 → combine_host_and_port addr1 addr2 ≡ panics
unfolding combine_host_and_port
combine_host_and_port-panics addr1 addr2 h =
    let (x, r, e) = split-cons addr1 b':' in rw (e, split-Lacks addr2 b':' h)

-- ===== src/Proxy/Socks/Port.antt =====
-- The text of a port in examples/src/proxy_server.c.
use quiet_lwip.Prelude.{ℕ, ◌+◌, ◌*◌, ◌/◌, ◌≤◌, ◌<◌, ◌≡◌, arith}
use quiet_lwip.Proxy.Socks.{decimal, port_text}

-- A port of at most four digits is passed on in decimal, and one of five digits without its last
-- one, where both of its halves are bytes.
pub port_text_lem :
    (high low : ℕ)
    → high < 256
    → low < 256
    → ((high * 256 + low < 10_000) → port_text high low ≡ decimal 5 (high * 256 + low))
      × ((10_000 ≤ high * 256 + low) → port_text high low ≡ decimal 5 ((high * 256 + low) / 10))
unfolding port_text decimal
port_text_lem high low h l = (λ small. ground arith, λ large. ground arith)

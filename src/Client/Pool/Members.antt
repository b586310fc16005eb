-- ===== src/Client/Pool/Members.antt =====
-- gps/libloc/librpc/clnt.c: what creations and destructions keep, and the version of a client.
use android_device_generic_m.Base.{
  ℕ, ◌-◌, ◌^◌, ◌<◌, ◌≡◌, Bool, true, not, Option, length, ◌==◌, ltb, if◌then◌else◌, arith,
}
use android_device_generic_m.Rpc.Channel.{Channel}
use android_device_generic_m.Client.Pool.{
  Member, Pool, no_clients, major, client_version, clnt_create, clnt_destroy,
}

-- The version of a client is the major version that was asked for, unless the top bit is set: then it
-- is the whole number.
pub version_lem :
    (vers : ℕ)
    → vers < 2 ^ 32
    → client_version vers ≡ (if ltb vers (2 ^ 31) then major vers else vers)
unfolding client_version
version_lem vers w = ground (arith, w)

-- The counter is the length of the list, and the router device, the pipe and the receive thread are
-- there exactly while the list is not empty.
pub record IsManned (p : Pool) : Type 0 where
  pub counted : p.num_clients ≡ length p.clients
  pub bounded : p.num_clients < 2 ^ 32
  pub router : p.router_open ≡ not (p.num_clients == 0)
  pub pipe : p.pipe_open ≡ not (p.num_clients == 0)
  pub thread : p.rx_running ≡ not (p.num_clients == 0)

-- What is true of a pool but for the part that close_empty settles.
record IsCounted (p : Pool) : Type 0 where
  counted : p.num_clients ≡ length p.clients
  bounded : p.num_clients < 2 ^ 32
  router : not (p.num_clients == 0) ≡ true → p.router_open ≡ true
  pipe : not (p.num_clients == 0) ≡ true → p.pipe_open ≡ true
  thread : not (p.num_clients == 0) ≡ true → p.rx_running ≡ true

-- Pools that creations and destructions lead to.
pub data Reached : Pool → Type 0 where
  initial : Reached no_clients
  created :
      (calloc : Option ℕ) (router opened : ℕ) (pipe_ok thread_ok : Bool) (prog vers : ℕ) {p : Pool}
      → thread_ok ≡ true
      → length p.clients < 2 ^ 32 - 1
      → Reached p
      → Reached (clnt_create calloc router opened pipe_ok thread_ok prog vers p).pool
  destroyed : (m : Option Member) {p : Pool} → Reached p → Reached (clnt_destroy m p).0

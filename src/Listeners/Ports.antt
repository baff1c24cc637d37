-- ===== src/Listeners/Ports.antt =====
-- The ports that the counter `externalPort` hands out (internal/impl/kube.go).
use weaver_kube.Base.{
  ℕ, ◌+◌, ◌^◌, ◌<◌, ◌≡◌, refl, false, List, [], ◌∷◌, ◌++◌, arith, ◌==◌, All, ltb, leb, ◌&&◌, Bytes,
  ok, >>=-eq-ok, length, sum_by, sum_by-append, one_if,
}
use weaver_kube.Names.{first8}
use weaver_kube.Config.{Listener, ListenerSpec}
use weaver_kube.Listeners.{new_listener, new_listeners, apply_specs, override}

-- How many of the listeners have this port.
abbrev pub count_port : ℕ → List Listener → ℕ
count_port q = sum_by (λ l. one_if (q == l.port))

-- One if the port is between the values of the counter before and after, and otherwise none.
abbrev pub handed_out : ℕ → ℕ → ℕ → ℕ
handed_out before after q = one_if (leb before q && ltb q after)

-- No entry of the configuration sets a port.
abbrev pub SetsNoPort : List ListenerSpec → Type 0
SetsNoPort = All (λ l. l.port ≡ 0)

port-apply_specs :
    (specs : List ListenerSpec) (lis : Listener)
    → SetsNoPort specs
    → (apply_specs specs lis).port ≡ lis.port
unfolding apply_specs override
port-apply_specs [] lis h = refl
port-apply_specs (l ∷ ls) lis (h, hs) = ground (arith, port-apply_specs ls lis hs)

module _ (id : Bytes) (specs : List ListenerSpec) (unset : SetsNoPort specs) where
  port-new_listener :
      (name : Bytes) (port : ℕ) (r : Listener × ℕ)
      → new_listener id specs name port ≡ ok r
      → port + 1 < 2 ^ 32
      → (r.0.port ≡ port) × (r.1 ≡ port + 1)
  unfolding new_listener
  port-new_listener name port r e room =
      let (v, hv, h) = >>=-eq-ok (first8 id) _ e in
      ground (
        arith,
        h,
        port-apply_specs specs
            (record { name = name; service_name = name ++ (b'-' ∷ v); port = port; public = false })
            unset,
      )

  -- If no entry of the configuration sets a port and the counter does not wrap, the loop over the
  -- listeners of a component takes the next ports of the counter, one each.
  pub ports-new_listeners :
      (names : List Bytes) (acc : List Listener) (port : ℕ) (r : List Listener × ℕ)
      → new_listeners id specs names acc port ≡ ok r
      → port + length names < 2 ^ 32
      → (r.1 ≡ port + length names)
        × ((q : ℕ) → count_port q r.0 ≡ count_port q acc + handed_out port r.1 q)
  unfolding new_listeners
  ports-new_listeners [] acc port r e room = (ground arith, λ q. ground arith)
  ports-new_listeners (name ∷ names) acc port r e room =
      let (lis, made, rest) = >>=-eq-ok (new_listener id specs name port) _ e in
      let (here, there) = port-new_listener name port lis made (omega arith) in
      let (end, counts) =
        ports-new_listeners names (acc ++ lis.0 ∷ []) lis.1 r rest (omega (arith, there)) in
      (
        omega (arith, there, end),
        λ q. ground (
          arith,
          counts q,
          here,
          there,
          end,
          sum_by-append (λ (l : Listener). one_if (q == l.port)) acc (lis.0 ∷ []),
        ),
      )

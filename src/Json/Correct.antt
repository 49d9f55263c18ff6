-- ===== src/Json/Correct.antt =====
-- The text that the state page gets, and the buffer that holds it.
use smart_socksproxy.Base.{
  ℕ, ◌<◌, ◌≡◌, refl, ap, ◌∙◌, Bool, true, false, some, List, [], ◌∷◌, Bytes, codes, length, arith,
}
use smart_socksproxy.Tunnel.{SshTunnel}
use smart_socksproxy.Proxy.{ProxyInstance}
use smart_socksproxy.Json.Buffer.{Buf, joined, add_each-within, add_each-text}
use smart_socksproxy.Json.Tree.{obj, Fields, value_onto, fields_onto}
use smart_socksproxy.Json.State.{
  add_ssh_tunnel, add_proxy_instance, add_state, build_json, listed, Build,
}
use smart_socksproxy.Json.Document.{state_value, proxy_fields, tunnel_fields}
use smart_socksproxy.Json.Pieces.{
  Closes, string_field, number_field, keyed_object, last_object, each-fields,
}
use smart_socksproxy.Json.Items.{proxy_item, tunnel_item}

braced :
    (texts : List Bytes) (fs : Fields)
    → Closes texts fs
    → (rest : Bytes) → joined (codes "{" ∷ texts) rest ≡ value_onto (obj fs) rest
unfolding joined fields_onto
braced texts fs c rest = ap (λ t. b'{' ∷ t) (c.first rest)

module _ (ntop ntop6 : Bytes → Bytes) (tunnels : List SshTunnel) (build : Build)
    (now proxy_start_time : ℕ) (proxies : List ProxyInstance) where
  add_state-text :
      (rest : Bytes)
      → joined (add_state ntop ntop6 tunnels build now proxy_start_time proxies) rest
        ≡ value_onto (state_value ntop ntop6 tunnels build now proxy_start_time proxies) rest
  unfolding add_state state_value
  add_state-text = braced _ _ (
      number_field (
        number_field (
          string_field (
            string_field (
              string_field (
                keyed_object
                  (last_object _ refl (
                    each-fields add_ssh_tunnel (λ ssh. ssh.name) tunnel_fields tunnel_item
                      (listed tunnels)))
                  _ refl
                  (each-fields (add_proxy_instance ntop ntop6 tunnels) (λ proxy. proxy.name)
                    (proxy_fields ntop ntop6 tunnels) (proxy_item ntop ntop6 tunnels) proxies)))))))

  -- Where `malloc` and `realloc` succeed and `default_size` is not 0, `build_json` writes the text of
  -- the state's JSON object: its keys, values and nesting, with a comma between two fields and none
  -- behind the last, and texts as they are.
  pub build_json-state_value :
      (realloc : ℕ → Bool) (default_size : ℕ)
      → ((size : ℕ) → realloc size ≡ true)
      → 0 < default_size
      → (b : Buf) × (build_json ntop ntop6 tunnels realloc true default_size build now
            proxy_start_time proxies
          ≡ some b)
        × (b.text
            ≡ value_onto (state_value ntop ntop6 tunnels build now proxy_start_time proxies) [])
  unfolding build_json
  build_json-state_value realloc default_size grows h = (
    _,
    refl,
    add_each-text realloc grows _ (add_state ntop ntop6 tunnels build now proxy_start_time proxies)
          h
        ∙ add_state-text [],
  )

  -- Whatever `malloc` and `realloc` do, the text that `build_json` returns and its zero stay within
  -- its buffer, if `default_size` is not 0.
  pub build_json-within :
      (realloc : ℕ → Bool) (malloc : Bool) (default_size : ℕ) (b : Buf)
      → 0 < default_size
      → build_json ntop ntop6 tunnels realloc malloc default_size build now proxy_start_time proxies
        ≡ some b
      → length b.text < b.size
  unfolding build_json
  build_json-within realloc false default_size b h e = cc
  build_json-within realloc true default_size b h e = ground (
    arith,
    add_each-within realloc (record { text = []; size = default_size })
        (add_state ntop ntop6 tunnels build now proxy_start_time proxies) h,
  )

-- ===== src/Server/Start/Stable.antt =====
-- What a start of the server settles on.
use joycast.Prelude.{
  ℕ, String, ◌≡◌, subst, true, false, Option, none, some, List, [], arith, inl, inr, if◌then◌else◌,
  Bool-cases, ◌⊎◌,
}
use joycast.Prelude.Outcome.{ok, Codec, Result-cases}
use joycast.Prelude.Files.{FileSystem}
use joycast.Trust.{Environment, TrustData}
use joycast.Server.Key.{ServerConfig, Hex, load_or_create_secret_key}
use joycast.Server.Start.{
  JoycastServer, Network, addr_of, manager_of, bind_socket, bind_endpoint, bind,
}

bind_socket_lem :
    (net : Network) (config : ServerConfig) (socket : Option _)
    → bind_socket net config ≡ ok socket
    → socket ≡ (if config.disable_udp then none else some (addr_of config))
unfolding bind_socket
bind_socket_lem net config socket h = ground arith

module _ (json : Codec TrustData String) (hex : Hex) where
  -- the key of the Iroh listener, unless it is disabled
  abbrev pub HasKey : ServerConfig → Environment → FileSystem → List ℕ → Option (List ℕ) → Type 0
  HasKey config env fs generated endpoint =
      ((config.disable_iroh ≡ true) × (endpoint ≡ none))
      ⊎ ((config.disable_iroh ≡ false)
          × (key : List ℕ) × ((load_or_create_secret_key hex config env fs generated).0 ≡ ok key)
          × (endpoint ≡ some key))

  bind_endpoint-HasKey :
      (net : Network) (config : ServerConfig) (env : Environment) (fs : FileSystem)
      (generated : List ℕ) (endpoint : Option (List ℕ))
      → (bind_endpoint json hex net config env fs generated).0 ≡ ok endpoint
      → HasKey config env fs generated endpoint
  unfolding bind_endpoint
  bind_endpoint-HasKey net config env fs generated endpoint h =
      elim (Bool-cases config.disable_iroh) [
        | inl off ↦ inl (off, ground arith)
        | inr live ↦ elim (Result-cases (load_or_create_secret_key hex config env fs generated).0) [
          | inl (key, e) ↦ inr (live, key, e, ground arith)
          | inr (x, e) ↦ absurd (ground arith)
        ]
      ]

  -- A server that starts.
  pub record Starts (config : ServerConfig) (env : Environment) (fs : FileSystem)
      (generated : List ℕ) (s : JoycastServer) : Type 0 where
    pub socket : s.udp_socket ≡ (if config.disable_udp then none else some (addr_of config))
    pub endpoint : HasKey config env fs generated s.iroh_endpoint
    pub manager : s.trust_manager ≡ manager_of json hex config env fs
    pub sessions : s.active_sessions ≡ []

  pub bind-Starts :
      (net : Network) (config : ServerConfig) (env : Environment) (fs : FileSystem)
      (generated : List ℕ) (s : JoycastServer)
      → (bind json hex net config env fs generated).0 ≡ ok s
      → Starts config env fs generated s
  unfolding bind
  bind-Starts net config env fs generated s h = elim (Result-cases (bind_socket net config)) [
    | inl (socket, e) ↦ elim (Result-cases (bind_endpoint json hex net config env fs generated).0) [
      | inl (endpoint, f) ↦
          let known = bind_endpoint-HasKey net config env fs generated endpoint f in
          let same : endpoint ≡ s.iroh_endpoint = ground arith in
          record {
            socket = ground (arith, bind_socket_lem net config socket e);
            endpoint = subst (HasKey config env fs generated) same known;
            manager = ground arith;
            sessions = ground arith;
          }
      | inr (x, f) ↦ absurd (ground arith)
    ]
    | inr (x, e) ↦ absurd (ground arith)
  ]

-- ===== src/Client/Extends.antt =====
-- What `updateServers` of src/client-ssl.cpp leaves of the servers that a client had.
use flight_safety_system.Base.{
  ℕ, ◌≤◌, ◌<◌, ◌≡◌, refl, sym, ap, ◌∙◌, List, [], ◌++◌, arith, append-nil, append_assoc,
}
use flight_safety_system.Floats.{Floats}
use flight_safety_system.Client.Servers.{FssClient}

module _ {F : Floats} where
  -- What a client keeps when it learns of servers: the connected servers, all objects in use, and
  -- the servers that wait, behind which the new ones stand; the application is told nothing.
  pub record Extends (c c' : FssClient F) : Type 0 where
    pub servers : c'.servers ≡ c.servers
    pub calls : c'.calls ≡ c.calls
    pub in_use : c.next_object ≤ c'.next_object
    pub objects : (q : ℕ) → q < c.next_object → c'.objects q ≡ c.objects q
    pub added_servers : List ℕ
    pub reconnect_servers : c'.reconnect_servers ≡ c.reconnect_servers ++ added_servers

  pub Extends-refl : (c : FssClient F) → Extends c c
  Extends-refl c = record {
    servers = refl;
    calls = refl;
    in_use = omega arith;
    objects = λ q h. refl;
    added_servers = [];
    reconnect_servers = sym (append-nil c.reconnect_servers);
  }

  pub Extends-trans : {c d e : FssClient F} → Extends c d → Extends d e → Extends c e
  Extends-trans {c} {d} {e} x y = record {
    servers = y.servers ∙ x.servers;
    calls = y.calls ∙ x.calls;
    in_use = omega (arith, x.in_use, y.in_use);
    objects = λ q h. y.objects q (omega (arith, x.in_use)) ∙ x.objects q h;
    added_servers = x.added_servers ++ y.added_servers;
    reconnect_servers =
        y.reconnect_servers
        ∙ ap (λ (l : List ℕ). l ++ y.added_servers) x.reconnect_servers
        ∙ append_assoc c.reconnect_servers x.added_servers y.added_servers;
  }

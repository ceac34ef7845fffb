-- ===== src/Hermes/Name.antt =====
-- hermes/model/model-opaques.go: channel names, keys, addresses and correlation identifiers. Each of
-- the types is an interface that holds a pointer to a string: `New…` allocates, and `==` compares the
-- pointers, not the texts.
use godev.Prelude.{
  ◌≤◌, ℕ, suc, ◌<◌, Bool, List, [], ◌∷◌, Bytes, codes, ◌==◌, ◌≡◌, false, arith, All,
}

pub record Name : Type 0 where
  pub address : ℕ
  pub text : Bytes

-- `NewChannelName(s)` and the like, with the next free address of the heap.
unfoldable pub new_name : Bytes → ℕ → Name × ℕ
new_name s free = (record { address = free; text = s }, suc free)

-- `a == b`
abbrev pub same : Name → Name → Bool
same a b = a.address == b.address

-- `ToChannelNames`
unfoldable pub new_names : List Bytes → ℕ → List Name × ℕ
new_names [] free = ([], free)
new_names (s ∷ ss) free =
    let (n, free') = new_name s free in let (ns, free'') = new_names ss free' in (n ∷ ns, free'')

-- hermes/api/hermes-api.go, allocated when the package starts.
abbrev pub rpc_sent : Name
rpc_sent = record { address = 0; text = codes "rpc-sent" }

abbrev pub rpc_inbox : Name
rpc_inbox = record { address = 1; text = codes "rpc-inbox" }

-- Every pointer of the list was allocated before address `free`.
abbrev pub Allocated : ℕ → List Name → Type 0
Allocated free = All (λ (n : Name). n.address < free)

pub same-fresh : (n m : Name) → m.address < n.address → same m n ≡ false
same-fresh n m h = ground arith

pub same-older : (n m : Name) → m.address < n.address → same n m ≡ false
same-older n m h = ground arith

pub Allocated-mono : (a b : ℕ) (cs : List Name) → a ≤ b → Allocated a cs → Allocated b cs
Allocated-mono a b [] h p = tt
Allocated-mono a b (c ∷ cs) h (l, p) = (ground arith, Allocated-mono a b cs h p)

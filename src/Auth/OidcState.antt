-- ===== src/Auth/OidcState.antt =====
-- apps/dashboard/internal/auth/oidc_state.go: the in-memory store of OIDC flow records. Every
-- method holds the store's one mutex. Instants are as in the session store.
pub mod Replay
use lucairn_enterprise_deplo.Base.{
  ℕ, ◌-◌, String, Bool, true, false, not, Option, none, some, ltb, if◌then◌else◌,
}
use lucairn_enterprise_deplo.Base.Dict
use lucairn_enterprise_deplo.Base.Dict.{Dict}

pub record OidcFlowState : Type 0 where
  pub state : String
  pub nonce : String
  pub code_verifier : String
  pub next_path : String
  pub created_at : ℕ

pub record MemoryOidcStateStore : Type 0 where
  pub entries : Dict OidcFlowState
  pub ttl : ℕ

pub new_memory_oidc_state_store : ℕ → MemoryOidcStateStore
new_memory_oidc_state_store ttl = record { entries = Dict.new; ttl = ttl }

-- What the random source gives for the three tokens, in the order of the calls; `none` is its error.
pub record Tokens : Type 0 where
  pub state : Option String
  pub verifier : Option String
  pub nonce : Option String

infixl 5 ◌>>=◌
abbrev ◌>>=◌ {ℓ κ} : {A : Type ℓ} {B : Type κ} → Option A → (A → Option B) → Option B
none >>= k = none
some a >>= k = k a

-- The record that `Create` builds, if no token failed.
pub minted : Tokens → String → ℕ → Option OidcFlowState
minted t next_path now = do
  state ← t.state
  verifier ← t.verifier
  nonce ← t.nonce
  some (record {
    state = state;
    nonce = nonce;
    code_verifier = verifier;
    next_path = next_path;
    created_at = now;
  })

stored : Option OidcFlowState → MemoryOidcStateStore → Option OidcFlowState × MemoryOidcStateStore
stored none s = (none, s)
stored (some rec) s = (some rec, record s { entries = Dict.insert rec.state rec s.entries })

unfoldable pub create :
    Tokens → String → ℕ → MemoryOidcStateStore → Option OidcFlowState × MemoryOidcStateStore
unfolding minted stored
create t next_path now s = stored (minted t next_path now) s

abbrev pub young : ℕ → ℕ → Option OidcFlowState → Option OidcFlowState
young now ttl none = none
young now ttl (some rec) = if ltb ttl (now - rec.created_at) then none else some rec

-- The entry goes whether it was too old or not.
unfoldable pub consume :
    ℕ → String → MemoryOidcStateStore → Option OidcFlowState × MemoryOidcStateStore
consume now state s = (
  young now s.ttl (Dict.lookup state s.entries),
  record s { entries = Dict.erase state s.entries },
)

-- !rec.CreatedAt.Before(now - ttl)
abbrev pub outlasts : ℕ → ℕ → OidcFlowState → Bool
outlasts now ttl rec = not (ltb rec.created_at (now - ttl))

pub collect : ℕ → MemoryOidcStateStore → MemoryOidcStateStore
collect now s = record s { entries = Dict.retain (outlasts now s.ttl) s.entries }

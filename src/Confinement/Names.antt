-- ===== src/Confinement/Names.antt =====
-- policy.py: which path components are sensitive names, whatever their spelling. Unicode normalisation, case
-- folding, `str.isspace` and the `re` engine answer from outside.
use Prim.Native.Char.{code}
use universal_agent_middlewa.Prelude.{
  ℕ, String, Bool, not, ◌&&◌, ◌||◌, List, [], ◌∷◌, any, map, leb, ◌==◌, str_eq, if◌then◌else◌,
}

pub record Unicode : Type 0 where
  -- unicodedata.normalize("NFD", name)
  pub nfd : String → String
  -- str.casefold
  pub casefold : String → String
  -- str.isspace of one character
  pub is_space : ℕ → Bool
  -- re.compile(pattern, re.IGNORECASE | re.DOTALL).fullmatch(name)
  pub fullmatch : String → String → Bool

unfoldable pub denied_exact : List String
denied_exact =
    ".git" ∷ ".ssh" ∷ ".aws" ∷ ".gnupg" ∷ ".kube" ∷ ".docker" ∷ ".npmrc" ∷ ".pypirc" ∷ ".netrc"
    ∷ "_netrc" ∷ "id_rsa" ∷ "id_ed25519" ∷ "credentials" ∷ "credentials.json" ∷ "secrets.json"
    ∷ ".git-credentials" ∷ ".pgpass" ∷ ".my.cnf" ∷ ".mylogin.cnf" ∷ ".s3cfg" ∷ ".boto"
    ∷ ".dockercfg" ∷ ".vault-token" ∷ ".htpasswd" ∷ ".azure" ∷ ".password-store" ∷ ".secrets"
    ∷ ".secret" ∷ "kubeconfig" ∷ "token.json" ∷ "tokens.json" ∷ []

unfoldable pub denied_patterns : List String
denied_patterns =
    "^\\.env.*$" ∷ "^.+\\.env(?:[.~].*)?$" ∷ ".*\\.(?:pem|p12|pfx|key|keystore|jks|p8|ppk)$"
    ∷ ".*\\.keychain(?:-db)?$" ∷ ".*\\.tfstate(?:\\..*)?$" ∷ ".*\\.tfvars(?:\\.json)?$"
    ∷ "^id_(?:rsa|dsa|ecdsa|ed25519)(?:_[^.]*)?$"
    ∷ "^\\.?secrets?\\.(?:json|ya?ml|toml|ini|cfg|conf|properties)$"
    ∷ "^client_secrets?(?:[_.-].*)?\\.json$" ∷ "^\\.[a-z0-9_]*_history$" ∷ []

abbrev between : ℕ → ℕ → ℕ → Bool
between low high c = leb low c && leb c high

-- _DEFAULT_IGNORABLE_RANGES
unfoldable pub is_ignorable : ℕ → Bool
is_ignorable c =
    c == 0x00AD
    || c == 0x034F
    || c == 0x061C
    || between 0x115F 0x1160 c
    || between 0x17B4 0x17B5 c
    || between 0x180B 0x180F c
    || between 0x200B 0x200F c
    || between 0x202A 0x202E c
    || between 0x2060 0x206F c
    || c == 0x3164
    || between 0xFE00 0xFE0F c
    || c == 0xFEFF
    || c == 0xFFA0
    || between 0xFFF0 0xFFF8 c
    || between 0x1BCA0 0x1BCA3 c
    || between 0x1D173 0x1D17A c
    || between 0xE0000 0xE0FFF c

-- name.translate(_DROP_IGNORABLE)
unfoldable pub drop_ignorable : String → String
unfolding is_ignorable
drop_ignorable String.[] = String.[]
drop_ignorable (String.◌∷◌ c s) =
    let rest = drop_ignorable s in if is_ignorable (code c) then rest else String.◌∷◌ c rest

module _ (u : Unicode) where
  unfoldable pub fold_name : String → String
  fold_name name = u.nfd (u.casefold (u.nfd name))

  -- the characters that the loop of `_alias_key` takes off the end: dots and blanks
  unfoldable pub is_trailing : ℕ → Bool
  is_trailing c = c == b'.' || u.is_space c

  -- reduced[:end]: a character stays if it is none of these, or if one behind it stays
  unfoldable pub strip_end : String → String
  unfolding is_trailing
  strip_end String.[] = String.[]
  strip_end (String.◌∷◌ c s) =
      let rest = strip_end s in
      if str_eq rest "" && is_trailing (code c) then String.[] else String.◌∷◌ c rest

  -- `_alias_key`
  unfoldable pub alias_key : String → String
  alias_key name = strip_end (fold_name (drop_ignorable name))

  unfoldable pub is_denied_exact : String → Bool
  is_denied_exact folded = any (str_eq folded) (map fold_name denied_exact)

  -- `_denied_spelling`
  unfoldable pub denied_spelling : String → String → Bool
  denied_spelling spelling folded =
      is_denied_exact folded
      || any (λ p. u.fullmatch p spelling || u.fullmatch p folded) denied_patterns

  -- `is_denied_component`
  unfoldable pub is_denied_component : String → Bool
  is_denied_component component =
      denied_spelling component (fold_name component)
      || (not (str_eq (alias_key component) (fold_name component))
          && denied_spelling (alias_key component) (alias_key component))

  -- `is_git_metadata_component`
  unfoldable pub is_git_metadata_component : String → Bool
  unfolding alias_key
  is_git_metadata_component component =
      str_eq (alias_key component) ".git" || str_eq (alias_key component) "git~1"

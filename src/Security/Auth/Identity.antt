-- ===== src/Security/Auth/Identity.antt =====
-- security/auth.py: the team of a request is the team of its key.
use mathlib.Core.Bool.{false≢true}
use ai_inference_cost_optimi.Prelude.{
  String, ◌≡◌, ◌≢◌, refl, sym, ap, ◌∙◌, ◌⊎◌, inl, inr, Option, none, some, List, [], ◌∷◌, ◌++◌, All,
  Bool-cases,
}
use ai_inference_cost_optimi.Prelude.Equality.{◌==◌, string_eq}
use ai_inference_cost_optimi.Prelude.Result.{Result, ok, err}
use ai_inference_cost_optimi.Security.Auth.{
  ApiKeyEntry, AuthConfig, AuthenticatedTeam, AuthError, missing_bearer_key, unknown_api_key,
  team_assertion_mismatch, match_team, check_assertion, authenticate,
}

-- `team` stands in the last entry that has the digest.
pub record LastMatch (digest : String) (entries : List ApiKeyEntry) (team : String) : Type 0 where
  pub before : List ApiKeyEntry
  pub entry : ApiKeyEntry
  pub later : List ApiKeyEntry
  pub split : entries ≡ before ++ entry ∷ later
  pub same_digest : entry.sha256 ≡ digest
  pub same_team : entry.team ≡ team
  pub last : All (λ e. e.sha256 ≢ digest) later

abbrev Matched : String → List ApiKeyEntry → Option String → Option String → Type 0
Matched digest entries start result =
    (All (λ e. e.sha256 ≢ digest) entries × (result ≡ start))
    ⊎ ((team : String) × (result ≡ some team) × LastMatch digest entries team)

module _ (digest : String) where
  LastMatch-cons :
      (entry : ApiKeyEntry) (entries : List ApiKeyEntry) (team : String)
      → LastMatch digest entries team
      → LastMatch digest (entry ∷ entries) team
  LastMatch-cons entry entries team m = record {
    before = entry ∷ m.before;
    entry = m.entry;
    later = m.later;
    split = ap (λ l. entry ∷ l) m.split;
    same_digest = m.same_digest;
    same_team = m.same_team;
    last = m.last;
  }

  Matched-skip :
      (entry : ApiKeyEntry) (entries : List ApiKeyEntry) (start result : Option String)
      → entry.sha256 ≢ digest
      → Matched digest entries start result
      → Matched digest (entry ∷ entries) start result
  Matched-skip entry entries start result other (inl (none_match, same)) =
      inl ((other, none_match), same)
  Matched-skip entry entries start result other (inr (team, same, m)) =
      inr (team, same, LastMatch-cons entry entries team m)

  Matched-here :
      (entry : ApiKeyEntry) (entries : List ApiKeyEntry) (start result : Option String)
      → entry.sha256 ≡ digest
      → Matched digest entries (some entry.team) result
      → Matched digest (entry ∷ entries) start result
  Matched-here entry entries start result e (inl (none_match, same)) = inr (
    entry.team,
    same,
    record {
      before = [];
      entry = entry;
      later = entries;
      split = refl;
      same_digest = e;
      same_team = refl;
      last = none_match;
    },
  )
  Matched-here entry entries start result e (inr (team, same, m)) =
      inr (team, same, LastMatch-cons entry entries team m)

  match_team-Matched :
      (entries : List ApiKeyEntry) (start : Option String)
      → Matched digest entries start (match_team digest entries start)
  unfolding match_team
  match_team-Matched [] start = inl (tt, refl)
  match_team-Matched (entry ∷ entries) start = elim (Bool-cases (digest == entry.sha256)) [
    | inl e ↦ rw e (
        Matched-here entry entries start _ (sym ((string_eq.same_iff digest entry.sha256).0 e))
          (match_team-Matched entries (some entry.team)))
    | inr e ↦ rw e (
        Matched-skip entry entries start _
          (λ p. false≢true (sym e ∙ (string_eq.same_iff digest entry.sha256).1 (sym p)))
          (match_team-Matched entries start))
  ]

-- What each outcome of `authenticate` says of the key, the entries and the asserted team.
abbrev pub Verdict :
    (String → String)
    → AuthConfig
    → Option String
    → Option String
    → Result AuthError AuthenticatedTeam
    → Type 0
Verdict hash config bearer asserted (ok t) =
    (key : String) × (bearer ≡ some key)
    × (key ≢ "")
    × LastMatch (hash key) config.keys t.team
    × ((asserted ≡ none) ⊎ (asserted ≡ some t.team))
Verdict hash config bearer asserted (err missing_bearer_key) = (bearer ≡ none) ⊎ (bearer ≡ some "")
Verdict hash config bearer asserted (err unknown_api_key) =
    (key : String) × (bearer ≡ some key) × All (λ e. e.sha256 ≢ hash key) config.keys
Verdict hash config bearer asserted (err (team_assertion_mismatch a team)) =
    (key : String) × (bearer ≡ some key)
    × LastMatch (hash key) config.keys team
    × (asserted ≡ some a)
    × (a ≢ team)

check_assertion-Verdict :
    (hash : String → String) (config : AuthConfig) (key : String) (asserted : Option String)
    (team : String)
    → key ≢ ""
    → LastMatch (hash key) config.keys team
    → Verdict hash config (some key) asserted (check_assertion asserted team)
unfolding check_assertion
check_assertion-Verdict hash config key none team k m = (key, refl, k, m, inl refl)
check_assertion-Verdict hash config key (some a) team k m = elim (Bool-cases (a == team)) [
  | inl e ↦ rw e (key, refl, k, m, inr (ap some ((string_eq.same_iff a team).0 e)))
  | inr e ↦ rw e (key, refl, m, refl, λ p. false≢true (sym e ∙ (string_eq.same_iff a team).1 p))
]

-- The team comes from the last entry with the digest of the key, and from nothing else; every
-- refusal has its reason, and a header that asserts another team is refused.
pub authenticate-Verdict :
    (hash : String → String) (config : AuthConfig) (bearer asserted : Option String)
    → Verdict hash config bearer asserted (authenticate hash config bearer asserted)
unfolding authenticate
authenticate-Verdict hash config none asserted = inl refl
authenticate-Verdict hash config (some key) asserted = elim (Bool-cases (key == "")) [
  | inl e ↦ rw e (inr (ap some ((string_eq.same_iff key "").0 e)))
  | inr e ↦ elim (match_team-Matched (hash key) config.keys none) [
    | inl (none_match, same) ↦ rw (e, same) (key, refl, none_match)
    | inr (team, same, m) ↦
        rw (e, same)
          (check_assertion-Verdict hash config key asserted team
            (λ p. false≢true (sym e ∙ (string_eq.same_iff key "").1 p)) m)
  ]
]

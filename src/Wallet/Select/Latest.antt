-- ===== src/Wallet/Select/Latest.antt =====
-- `max` over the times that credentials were added, in `select_grant` and `get_latest_credential` of
-- src/helix_sdk/wallet.py.
use helix_sdk_py.Errors.{◌>>=◌}
use helix_sdk_py.Base.{
  All, Bool, Bool-cases, List, Option, [], ap, arith, false, inl, inr, keep, none, not, refl, some,
  subst, sym, true, ◌++◌, ◌∷◌, ◌≡◌, ◌⊎◌,
}
use helix_sdk_py.Errors.{Result, filtered, filtered-keep, ok}
use helix_sdk_py.Json.{str}
use helix_sdk_py.Json.Compare.{json_gt}
use helix_sdk_py.Text.{Text}
use helix_sdk_py.Text.Order.{text_le, text_le_total, text_le_trans}
use helix_sdk_py.Wallet.Credential.{WalletCredential}
use helix_sdk_py.Wallet.Select.{latest, latest_of}

-- When a credential was added, if that is a text.
abbrev pub moment : WalletCredential → Text
moment c = elim c.added_at [ str s ↦ s | _ ↦ [] ]

abbrev pub IsDated : WalletCredential → Type 0
IsDated c = c.added_at ≡ str (moment c)

abbrev pub before : WalletCredential → WalletCredential → Bool
before c d = not (text_le (moment d) (moment c))

-- The first of the newest: those in front of it are older, and none behind it is newer.
pub record IsFirstNewest (best : WalletCredential) (cs : List WalletCredential) : Type 0 where
  pub front : List WalletCredential
  pub behind : List WalletCredential
  pub split : cs ≡ front ++ best ∷ behind
  pub older : All (λ c. before c best ≡ true) front
  pub no_newer : All (λ c. before best c ≡ false) behind

abbrev pub IsNewestOf : List WalletCredential → Option WalletCredential → Type 0
IsNewestOf cs none = cs ≡ []
IsNewestOf cs (some best) = IsFirstNewest best cs

before_trans :
    (b c d : WalletCredential) → before b c ≡ true → before c d ≡ true → before b d ≡ true
before_trans b c d h k =
    ground
      (arith, text_le_total (moment c) (moment b), text_le_trans (moment d) (moment b) (moment c))

before-no_newer :
    (b c d : WalletCredential) → before b c ≡ false → before b d ≡ true → before c d ≡ true
before-no_newer b c d h k = ground (arith, text_le_trans (moment d) (moment c) (moment b))

json_gt-dated :
    (b c : WalletCredential)
    → IsDated b
    → IsDated c
    → json_gt c.added_at b.added_at ≡ ok (before b c)
unfolding json_gt
json_gt-dated b c h k = rw (h, k) refl

-- What a run of `latest_of` from `best` gives: `best`, or the first newest, which is newer.
abbrev Reaches : WalletCredential → List WalletCredential → WalletCredential → Type 0
Reaches best cs r =
    (r ≡ best) × All (λ c. before best c ≡ false) cs ⊎ (before best r ≡ true) × IsFirstNewest r cs

latest_of-Reaches :
    (best : WalletCredential) (cs : List WalletCredential)
    → IsDated best
    → All IsDated cs
    → (r : WalletCredential) × (latest_of best cs ≡ ok r) × Reaches best cs r
unfolding latest_of
latest_of-Reaches best [] h hs = (best, refl, inl (refl, tt))
latest_of-Reaches best (c ∷ cs) h (k, hs) = elim (Bool-cases (before best c)) [
  | inl newer ↦
      let (r, e, found) = latest_of-Reaches c cs k hs in
      (
        r,
        rw (latest_of, json_gt-dated best c h k, newer) e,
        inr (elim found [
          | inl (same, rest) ↦ (
            subst (λ x. before best x ≡ true) (sym same) newer,
            record {
              front = [];
              behind = cs;
              split = ap (λ x. x ∷ cs) (sym same);
              older = tt;
              no_newer = subst (λ x. All (λ d. before x d ≡ false) cs) (sym same) rest;
            },
          )
          | inr (over, first) ↦ (
            before_trans best c r newer over,
            record {
              front = c ∷ first.front;
              behind = first.behind;
              split = ap (λ l. c ∷ l) first.split;
              older = (over, first.older);
              no_newer = first.no_newer;
            },
          )
        ]),
      )
  | inr no_newer ↦
      let (r, e, found) = latest_of-Reaches best cs h hs in
      (
        r,
        rw (latest_of, json_gt-dated best c h k, no_newer) e,
        elim found [
          | inl (same, rest) ↦ inl (same, (no_newer, rest))
          | inr (over, first) ↦ inr (
            over,
            record {
              front = c ∷ first.front;
              behind = first.behind;
              split = ap (λ l. c ∷ l) first.split;
              older = (before-no_newer best c r no_newer over, first.older);
              no_newer = first.no_newer;
            },
          )
        ],
      )
]

latest-IsNewestOf :
    (cs : List WalletCredential)
    → All IsDated cs
    → (r : Option WalletCredential) × (latest cs ≡ ok r) × IsNewestOf cs r
unfolding latest
latest-IsNewestOf [] h = (none, refl, refl)
latest-IsNewestOf (c ∷ cs) (k, h) =
    let (r, e, found) = latest_of-Reaches c cs k h in
    (
      some r,
      rw (latest, e) refl,
      elim found [
        | inl (same, rest) ↦ record {
          front = [];
          behind = cs;
          split = ap (λ x. x ∷ cs) (sym same);
          older = tt;
          no_newer = subst (λ x. All (λ d. before x d ≡ false) cs) (sym same) rest;
        }
        | inr (over, first) ↦ record {
          front = c ∷ first.front;
          behind = first.behind;
          split = ap (λ l. c ∷ l) first.split;
          older = (over, first.older);
          no_newer = first.no_newer;
        }
      ],
    )

All-keep :
    (p : WalletCredential → Bool) (cs : List WalletCredential)
    → All IsDated cs
    → All IsDated (keep p cs)
All-keep p [] h = tt
All-keep p (c ∷ cs) (k, h) = elim (Bool-cases (p c)) [
  | inl held ↦ rw (All, keep, held) (k, All-keep p cs h)
  | inr other ↦ rw (keep, other) (All-keep p cs h)
]

pub chosen-IsNewestOf :
    (test : WalletCredential → Result Bool) (p : WalletCredential → Bool)
    (cs : List WalletCredential)
    → All (λ c. test c ≡ ok (p c)) cs
    → All IsDated cs
    → (r : Option WalletCredential) × (filtered test cs >>= latest ≡ ok r)
      × IsNewestOf (keep p cs) r
chosen-IsNewestOf test p cs h dated =
    let (r, e, found) = latest-IsNewestOf (keep p cs) (All-keep p cs dated) in
    (r, rw (filtered-keep test p cs h) e, found)

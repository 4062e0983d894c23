-- ===== src/Storage/Mounted.antt =====
-- The mount that `_linux_mount_for` of
-- src/butterbot/infrastructure/persistence/storage.py chooses for a path.
use butterbot.Base.{
  ◌⊎◌, String, Bool, true, false, not, ◌||◌, Option, none, some, List, [], ◌∷◌, ◌++◌, all, select,
  length, is_some, leb, ltb, str_eq, ◌≡◌, refl, sym, arith, ap, ◌∙◌, Bool-cases, inl, inr, eq_iff,
}
use mathlib.Core.Path.{subst}
use mathlib.Core.List.{Memᴰ}
use mathlib.Core.List.Memᴰ
use butterbot.Checked.{refused, passed, AllPassed, require-then}
use butterbot.Storage.{
  LinuxMount, ProcessAnswers, relative_to, longest, holds_path, linux_mount_for,
}

pub relative_to-append :
    (path root rest : List String) → relative_to path root ≡ some rest → path ≡ root ++ rest
unfolding relative_to
relative_to-append path [] rest e = ground arith
relative_to-append [] (r ∷ rs) rest e = ground arith
relative_to-append (p ∷ ps) (r ∷ rs) rest e = elim (Bool-cases (str_eq p r)) [
  | inl same ↦
      (ap (λ l. p ∷ l) (relative_to-append ps rs rest (rw same at e))
        ∙ ap (λ q. q ∷ rs ++ rest) ((eq_iff p r).0 same))
  | inr other ↦ absurd (ground arith)
]

-- No mount of the list that holds the path has a longer mount point.
abbrev pub is_innermost : List String → List LinuxMount → LinuxMount → Bool
is_innermost path mounts mount =
    all (λ m. not (holds_path path m) || leb (length m.mount_point) (length mount.mount_point))
      mounts

-- The mount is an entry of the table, the path lies below its mount point, and no other entry that
-- the path lies below has a longer one.
pub record IsMountOf (mounts : Option (List LinuxMount)) (path : List String) (mount : LinuxMount)
    : Type 0 where
  pub entries : List LinuxMount
  pub readable : mounts ≡ some entries
  pub listed : Memᴰ mount entries
  pub below : List String
  pub path_below : path ≡ mount.mount_point ++ below
  pub innermost : is_innermost path entries mount ≡ true

abbrev is_at_most : LinuxMount → LinuxMount → Bool
is_at_most m best = leb (length m.mount_point) (length best.mount_point)

at_most_trans :
    (a b c : LinuxMount) → is_at_most a b ≡ true → is_at_most b c ≡ true → is_at_most a c ≡ true
at_most_trans a b c h k = ground arith

longest-listed : (best : LinuxMount) (ms : List LinuxMount) → Memᴰ (longest best ms) (best ∷ ms)
unfolding longest
longest-listed best [] = Memᴰ.head refl
longest-listed best (m ∷ ms) =
    elim (Bool-cases (ltb (length best.mount_point) (length m.mount_point))) [
      | inl longer ↦ rw longer (Memᴰ.tail (longest-listed m ms))
      | inr shorter ↦ rw shorter (keep (Memᴰ.cases_cons (longest-listed best ms)))
    ]
  where
    keep : {x : LinuxMount} → (x ≡ best) ⊎ Memᴰ x ms → Memᴰ x (best ∷ m ∷ ms)
    keep (inl e) = Memᴰ.head e
    keep (inr k) = Memᴰ.tail (Memᴰ.tail k)

longest-first :
    (best : LinuxMount) (ms : List LinuxMount) → is_at_most best (longest best ms) ≡ true
unfolding longest
longest-first best [] = ground arith
longest-first best (m ∷ ms) =
    elim (Bool-cases (ltb (length best.mount_point) (length m.mount_point))) [
      | inl longer ↦
          rw longer (at_most_trans best m (longest m ms) (ground arith) (longest-first m ms))
      | inr shorter ↦ rw shorter (longest-first best ms)
    ]

longest-skip :
    (best m : LinuxMount) (ms : List LinuxMount)
    → ltb (length best.mount_point) (length m.mount_point) ≡ true
    → longest best (m ∷ ms) ≡ longest m ms
unfolding longest
longest-skip best m ms longer = rw longer refl

longest-stay :
    (best m : LinuxMount) (ms : List LinuxMount)
    → ltb (length best.mount_point) (length m.mount_point) ≡ false
    → longest best (m ∷ ms) ≡ longest best ms
unfolding longest
longest-stay best m ms shorter = rw shorter refl

longest-all :
    (best : LinuxMount) (ms : List LinuxMount) → all (λ m. is_at_most m (longest best ms)) ms ≡ true
longest-all best [] = refl
longest-all best (m ∷ ms) =
    elim (Bool-cases (ltb (length best.mount_point) (length m.mount_point))) [
      | inl longer ↦
          subst (λ x. all (λ n. is_at_most n x) (m ∷ ms) ≡ true)
            (sym (longest-skip best m ms longer)) (rw (longest-first m ms) (longest-all m ms))
      | inr shorter ↦
          subst (λ x. all (λ n. is_at_most n x) (m ∷ ms) ≡ true)
            (sym (longest-stay best m ms shorter))
            (rw (at_most_trans m best (longest best ms) (ground arith) (longest-first best ms))
              (longest-all best ms))
    ]

module _ (p : LinuxMount → Bool) where
  listed-select :
      (x : LinuxMount) (ms : List LinuxMount) → Memᴰ x (select p ms) → Memᴰ x ms × (p x ≡ true)
  listed-select x [] k = absurd (Memᴰ.not-nil k)
  listed-select x (m ∷ ms) k = elim (Bool-cases (p m)) [
    | inl passes ↦ elim (Memᴰ.cases_cons (rw passes at k)) [
      | inl e ↦ (Memᴰ.head e, ap p e ∙ passes)
      | inr later ↦ let found = listed-select x ms later in (Memᴰ.tail found.0, found.1)
    ]
    | inr fails ↦ let found = listed-select x ms (rw fails at k) in (Memᴰ.tail found.0, found.1)
  ]

  all-unless :
      (q : LinuxMount → Bool) (ms : List LinuxMount)
      → all q (select p ms) ≡ true
      → all (λ m. not (p m) || q m) ms ≡ true
  all-unless q [] h = refl
  all-unless q (m ∷ ms) h = ground (arith, all-unless q ms)

below-mount :
    (path root : List String) (o : Option (List String))
    → relative_to path root ≡ o
    → is_some o ≡ true
    → (rest : List String) × (path ≡ root ++ rest)
below-mount path root none e h = absurd (ground arith)
below-mount path root (some rest) e h = (rest, relative_to-append path root rest e)

chosen-IsMountOf :
    (path : List String) (mounts : List LinuxMount) (found : List LinuxMount)
    → select (holds_path path) mounts ≡ found
    → AllPassed
        (IsMountOf (some mounts) path)
        (elim found [ [] ↦ refused "unsafe_storage" | m ∷ ms ↦ passed (longest m ms) ])
chosen-IsMountOf path mounts [] e = tt
chosen-IsMountOf path mounts (m ∷ ms) e =
    let best = longest m ms in
    let (listed, held) = listed-select (holds_path path) best mounts (rw e (longest-listed m ms)) in
    let (below, holds) = below-mount path best.mount_point _ refl held in
    record {
      entries = mounts;
      readable = refl;
      listed = listed;
      below = below;
      path_below = holds;
      innermost =
          all-unless (holds_path path) (λ x. is_at_most x best) mounts
            (rw e (rw (longest-first m ms) (longest-all m ms)));
    }

mounted :
    (path : List String) (mounts : Option (List LinuxMount))
    → AllPassed (IsMountOf mounts path) (elim mounts [
      | none ↦ refused "unsafe_storage"
      | some entries ↦ elim (select (holds_path path) entries) [
        | [] ↦ refused "unsafe_storage"
        | m ∷ ms ↦ passed (longest m ms)
      ]
    ])
mounted path none = tt
mounted path (some mounts) = chosen-IsMountOf path mounts _ refl

pub linux_mount_for-IsMountOf :
    (path : List String) (process : ProcessAnswers)
    → AllPassed (IsMountOf process.mounts path) (linux_mount_for path process)
unfolding linux_mount_for
linux_mount_for-IsMountOf path process =
    require-then (IsMountOf process.mounts path) process.is_linux _ _
      λ _. mounted path process.mounts

-- ===== src/Trace/Etw/Stack/Resolved.antt =====
-- What a frame is resolved to, in crates/dbgflow-trace/src/profile/native_etw/stack.rs.
use dbgflow.Prelude.{
  ℕ, ◌+◌, ◌-◌, ◌≤◌, ◌≡◌, refl, ◌⊎◌, inl, inr, Bool, true, false, Option, none, some, List, [], ◌∷◌,
  ◌++◌, length, arith, if◌then◌else◌, ltb, subst, length-append, Option-cases,
}
use dbgflow.Trace.Etw.{FrameText, in_module, at_address}
use dbgflow.Trace.Etw.Stack.{
  ModuleInterval, StackFrame, StackStats, contains_at, last_loaded, later, resolve_stack_address,
  resolve_stack_addresses, count_frames, reversed_texts, finalize_stack,
}

-- A module is one of several.
pub data Among (a : ModuleInterval) : List ModuleInterval → Type 0 where
  here : (modules : List ModuleInterval) → Among a (a ∷ modules)
  there :
      (b : ModuleInterval) (modules : List ModuleInterval) → Among a modules → Among a (b ∷ modules)

-- No module contains the address at the time.
abbrev pub NoneContains : (address timestamp : ℕ) → List ModuleInterval → Type 0
NoneContains address timestamp [] = Unit
NoneContains address timestamp (a ∷ modules) =
    (contains_at a address timestamp ≡ false) × NoneContains address timestamp modules

-- The modules that contain the address at the time are loaded by `loaded_at`.
abbrev pub LoadedBy : (loaded_at address timestamp : ℕ) → List ModuleInterval → Type 0
LoadedBy loaded_at address timestamp [] = Unit
LoadedBy loaded_at address timestamp (a ∷ modules) =
    (contains_at a address timestamp ≡ true → a.loaded_at ≤ loaded_at)
    × LoadedBy loaded_at address timestamp modules

later_loaded :
    (n m address timestamp : ℕ) (modules : List ModuleInterval)
    → n ≤ m
    → LoadedBy n address timestamp modules
    → LoadedBy m address timestamp modules
later_loaded n m address timestamp [] h l = tt
later_loaded n m address timestamp (a ∷ modules) h l =
    ((λ c. omega (arith, l.0 c, h)), later_loaded n m address timestamp modules h l.1)

none_loaded :
    (n address timestamp : ℕ) (modules : List ModuleInterval)
    → NoneContains address timestamp modules
    → LoadedBy n address timestamp modules
none_loaded n address timestamp [] c = tt
none_loaded n address timestamp (a ∷ modules) c =
    ((λ h. absurd (ground (arith, h, c.0))), none_loaded n address timestamp modules c.1)

-- What is found among modules: none contains the address, or the one that is loaded last.
abbrev Found : (address timestamp : ℕ) → List ModuleInterval → Option ModuleInterval → Type 0
Found address timestamp modules none = NoneContains address timestamp modules
Found address timestamp modules (some a) =
    Among a modules
    × (contains_at a address timestamp ≡ true)
    × LoadedBy a.loaded_at address timestamp modules

later-Found :
    (address timestamp : ℕ) (a b : ModuleInterval) (modules : List ModuleInterval)
    → Found address timestamp modules (some b)
    → contains_at a address timestamp ≡ true
    → (c : Bool) → ltb b.loaded_at a.loaded_at ≡ c
    → Found address timestamp (a ∷ modules) (some (if c then a else b))
later-Found address timestamp a b modules f e true h = (
  here modules,
  e,
  (
    (λ c. omega arith),
    later_loaded b.loaded_at a.loaded_at address timestamp modules (ground (arith, h)) f.2,
  ),
)
later-Found address timestamp a b modules f e false h =
    (there a modules f.0, f.1, ((λ c. ground (arith, h)), f.2))

-- Looking at one more module.
Found-more :
    (address timestamp : ℕ) (a : ModuleInterval) (modules : List ModuleInterval)
    (rest : Option ModuleInterval)
    → Found address timestamp modules rest
    → (b : Bool) → contains_at a address timestamp ≡ b
    → Found address timestamp (a ∷ modules) (if b then some (later a rest) else rest)
Found-more address timestamp a modules none f true e =
    (here modules, e, ((λ c. omega arith), none_loaded a.loaded_at address timestamp modules f))
Found-more address timestamp a modules none f false e = (e, f)
Found-more address timestamp a modules (some b) f true e =
    later-Found address timestamp a b modules f e (ltb b.loaded_at a.loaded_at) refl
Found-more address timestamp a modules (some b) f false e =
    (there a modules f.0, f.1, ((λ c. absurd (ground (arith, c, e))), f.2))

last_loaded-Found :
    (address timestamp : ℕ) (modules : List ModuleInterval)
    → Found address timestamp modules (last_loaded address timestamp modules)
unfolding last_loaded
last_loaded-Found address timestamp [] = tt
last_loaded-Found address timestamp (a ∷ modules) =
    Found-more address timestamp a modules (last_loaded address timestamp modules)
      (last_loaded-Found address timestamp modules) (contains_at a address timestamp) refl

-- A frame is an offset into a module that contains the address at the time, none that does being
-- loaded later, or it is the address, where no module contains it.
pub resolve_stack_address-Chosen :
    (address timestamp : ℕ) (modules : List ModuleInterval)
    → ((a : ModuleInterval) × Among a modules
        × (contains_at a address timestamp ≡ true)
        × LoadedBy a.loaded_at address timestamp modules
        × (resolve_stack_address address modules timestamp
            ≡ record { value = in_module a.name (address - a.base); resolved = true }))
      ⊎ (NoneContains address timestamp modules
          × (resolve_stack_address address modules timestamp
              ≡ record { value = at_address address; resolved = false }))
unfolding resolve_stack_address
resolve_stack_address-Chosen address timestamp modules =
    elim (Option-cases (last_loaded address timestamp modules)) [
      | inl e ↦ inr (subst (Found address timestamp modules) e found, ground (arith, e))
      | inr (a, e) ↦
          let f = subst (Found address timestamp modules) e found in
          inl (a, f.0, f.1, f.2, ground (arith, e))
    ]
  where
    found : Found address timestamp modules (last_loaded address timestamp modules)
    found = last_loaded-Found address timestamp modules

-- The frames of a stack that are in a module.
abbrev pub in_modules : List FrameText → ℕ
in_modules [] = 0
in_modules (in_module name offset ∷ frames) = 1 + in_modules frames
in_modules (at_address address ∷ frames) = in_modules frames

in_modules-append : (xs ys : List FrameText) → in_modules (xs ++ ys) ≡ in_modules xs + in_modules ys
in_modules-append [] ys = omega arith
in_modules-append (in_module name offset ∷ xs) ys = omega (arith, in_modules-append xs ys)
in_modules-append (at_address address ∷ xs) ys = in_modules-append xs ys

values :
    (address timestamp : ℕ) (modules : List ModuleInterval)
    → (if (resolve_stack_address address modules timestamp).resolved then 1 else 0)
      ≡ in_modules ((resolve_stack_address address modules timestamp).value ∷ [])
unfolding resolve_stack_address
values address timestamp modules = ground arith

module _ (modules : List ModuleInterval) (timestamp : ℕ) where
  in_modules-texts :
      (addresses : List ℕ)
      → let stack = resolve_stack_addresses addresses modules timestamp in
        count_frames true stack ≡ in_modules (reversed_texts stack)
  unfolding resolve_stack_addresses count_frames reversed_texts
  in_modules-texts [] = refl
  in_modules-texts (address ∷ addresses) =
      let frame = resolve_stack_address address modules timestamp in
      let texts = reversed_texts (resolve_stack_addresses addresses modules timestamp) in
      omega (
        arith,
        in_modules-texts addresses,
        in_modules-append texts (frame.value ∷ []),
        values address timestamp modules,
      )

length-texts : (frames : List StackFrame) → length (reversed_texts frames) ≡ length frames
unfolding reversed_texts
length-texts [] = refl
length-texts (frame ∷ frames) =
    ground (arith, length-texts frames, length-append (reversed_texts frames) (frame.value ∷ []))

count_both :
    (frames : List StackFrame)
    → count_frames true frames + count_frames false frames ≡ length frames
unfolding count_frames
count_both [] = refl
count_both (frame ∷ frames) = ground (arith, count_both frames)

-- The statistics grow by the frames that are written: all of them, those in a module, and the rest.
finalize_stack-Counted :
    (addresses : List ℕ) (modules : List ModuleInterval) (timestamp : ℕ) (stats : StackStats)
    → let (frames, stats') = finalize_stack addresses modules timestamp stats in
      (stats'.total ≡ stats.total + length frames)
      × (stats'.resolved ≡ stats.resolved + in_modules frames)
      × (stats'.resolved + stats'.unresolved ≡ stats.resolved + stats.unresolved + length frames)
unfolding finalize_stack
finalize_stack-Counted addresses modules timestamp stats =
    let stack = resolve_stack_addresses addresses modules timestamp in
    (
      omega (arith, length-texts stack),
      omega (arith, in_modules-texts modules timestamp addresses),
      omega (arith, length-texts stack, count_both stack),
    )

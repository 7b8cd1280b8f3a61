-- ===== src/File/Registry/Updates.antt =====
-- What the operations of file/registry.go do to the contexts.
use conver_go.Base.{
  Bool-cases, In, List, Map, Option, Option-cases, Text, [], arith, eq_refl, if◌then◌else◌, inl,
  inr, keys, lookup, lookup-insert, lookup-remove, none, ok, refl, remove, some, sym, text_Eq,
  text_eq_iff, true, ◌==◌, ◌↔◌, ◌∙◌, ◌∷◌, ◌≡◌, ◌⊎◌,
}
use conver_go.Cvrdt.State.{snapshot}
use conver_go.File.Registry.{
  get_all_file_ctx_info, remove_file_ctx, remove_each, remove_all_ctx, FileContext, FileRegistry,
  put_context, get_file_content,
}

-- Reading the content of a file that the registry has gives what the document shows, leaves its
-- operations and its text as they are, and marks the document as up to date, so that the next
-- snapshot, the poller's, says that there is nothing new.
pub get_file_content_lem :
    {E : Type 0} (fr : FileRegistry) (file_name : Text) (ctx : FileContext)
    → lookup file_name fr.file_contexts ≡ some ctx
    → ((get_file_content {E = E} fr file_name).1 ≡ ok (snapshot ctx.meta_state).1)
      × ((ctx' : FileContext) × (lookup file_name
              (get_file_content {E = E} fr file_name).0.file_contexts
            ≡ some ctx')
          × (ctx'.meta_state.site ≡ ctx.meta_state.site)
          × (ctx'.meta_state.state ≡ ctx.meta_state.state)
          × ((snapshot ctx'.meta_state).2 ≡ true))
unfolding get_file_content snapshot put_context
get_file_content_lem {E} fr file_name ctx h =
    let new : FileContext = record ctx { meta_state = (snapshot ctx.meta_state).0 } in
    (
      rw (get_file_content, h) refl,
      (
        new,
        rw
            (
              get_file_content,
              h,
              lookup-insert file_name file_name new fr.file_contexts,
              eq_refl file_name,
            )
            refl,
        refl,
        refl,
        refl,
      ),
    )

-- Taking a context away whose poller stops well removes just its entry.
lookup-remove_file_ctx :
    {E : Type 0} (stopped : Text → Option E) (fr : FileRegistry) (path name : Text)
    → stopped path ≡ none
    → ((remove_file_ctx stopped fr path).1 ≡ none)
      × (lookup name (remove_file_ctx stopped fr path).0.file_contexts
          ≡ lookup name (remove path fr.file_contexts))
unfolding remove_file_ctx
lookup-remove_file_ctx stopped fr path name s = elim (Option-cases (lookup path fr.file_contexts)) [
  | inl e ↦ (
    rw (remove_file_ctx, e) refl,
    rw (remove_file_ctx, e)
        (absent (lookup-remove path name fr.file_contexts) (text_eq_iff path name) e),
  )
  | inr (ctx, e) ↦ (rw (remove_file_ctx, e, s) refl, rw (remove_file_ctx, e, s) refl)
]
  where
    absent :
        lookup name (remove path fr.file_contexts)
          ≡ (if path == name then none else lookup name fr.file_contexts)
        → ((path == name) ≡ true) ↔ (path ≡ name)
        → lookup path fr.file_contexts ≡ none
        → lookup name fr.file_contexts ≡ lookup name (remove path fr.file_contexts)
    absent at same e = ground (arith, at, same, e)

lookup-remove_each :
    {E : Type 0} (stopped : Text → Option E) (fr : FileRegistry) (paths : List Text) (name : Text)
    → ((path : Text) → stopped path ≡ none)
    → (lookup name fr.file_contexts ≡ none) ⊎ In name paths
    → ((remove_each stopped fr paths).1 ≡ [])
      × (lookup name (remove_each stopped fr paths).0.file_contexts ≡ none)
unfolding remove_each
lookup-remove_each stopped fr [] name s (inl e) = (refl, e)
lookup-remove_each stopped fr [] name s (inr m) = absurd m
lookup-remove_each stopped fr (path ∷ paths) name s m =
    let (fine, at) = lookup-remove_file_ctx stopped fr path name (s path) in
    let rest =
      lookup-remove_each stopped (remove_file_ctx stopped fr path).0 paths name s
        (later (at ∙ lookup-remove path name fr.file_contexts) (text_eq_iff path name) m) in
    (rw (remove_each, fine, rest.0) refl, rest.1)
  where
    later :
        {l : Option FileContext}
        → l ≡ (if path == name then none else lookup name fr.file_contexts)
        → ((path == name) ≡ true) ↔ (path ≡ name)
        → (lookup name fr.file_contexts ≡ none) ⊎ ((name ≡ path) ⊎ In name paths)
        → (l ≡ none) ⊎ In name paths
    later at same (inl e) = inl (ground (arith, at, e))
    later at same (inr (inl e)) = inl (ground (arith, at, e, same))
    later at same (inr (inr k)) = inr k

keys-get_all :
    (m : Map Text FileContext) (name : Text)
    → (lookup name m ≡ none) ⊎ In name (keys (get_all_file_ctx_info m))
unfolding get_all_file_ctx_info lookup
keys-get_all [] name = inl refl
keys-get_all ((k, ctx) ∷ m) name = elim (Bool-cases (k == name)) [
  | inl e ↦ inr (inl (sym ((text_eq_iff k name).0 e)))
  | inr ne ↦ elim (keys-get_all m name) [
    | inl none_there ↦ inl (ground (arith, ne, none_there))
    | inr there ↦ inr (inr there)
  ]
]

-- Where every poller stops without an error, `RemoveAllCtx` reports none and leaves no file.
pub remove_all_ctx_lem :
    {E : Type 0} (stopped : Text → Option E) (fr : FileRegistry) (file_name : Text)
    → ((path : Text) → stopped path ≡ none)
    → ((remove_all_ctx stopped fr).1 ≡ [])
      × (lookup file_name (remove_all_ctx stopped fr).0.file_contexts ≡ none)
unfolding remove_all_ctx
remove_all_ctx_lem stopped fr file_name s =
    lookup-remove_each stopped fr (keys (get_all_file_ctx_info fr.file_contexts)) file_name s
      (keys-get_all fr.file_contexts file_name)

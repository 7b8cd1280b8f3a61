-- ===== src/File/Registry.antt =====
-- file/registry.go and file/context.go: the contexts of the files that are edited together, by
-- path, each under the registry's lock. The state of a context is the document of cvrdt/state.go;
-- what the file system answers when a context is made, and the poller when it is stopped, are
-- arguments. The poller's own steps are not part of an operation here.
pub mod Updates
use conver_go.Base.{
  Bool, List, Map, Option, Outcome, Result, Text, [], err, false, insert, keys, lookup, none, ok,
  panic, remove, ret, some, text_Eq, true, ℕ, ◌>>=◌, ◌∷◌,
}
use conver_go.Cvrdt.Sequence.{SiteError}
use conver_go.Cvrdt.State.{
  CvrdtState, WootCvrdt, new_woot_cvrdt_with_view, update_state, snapshot, get_state, clone,
}

-- `FileContext`, without its poller.
pub record FileContext : Type 0 where
  pub local_path : Text
  pub meta_state : WootCvrdt
  pub is_state_tracked : Bool

-- `FileContextInfo`
pub record FileContextInfo : Type 0 where
  pub local_path : Text
  pub is_newly_created : Bool
  pub read_only_state : CvrdtState

unfoldable pub get_new_file_context : Text → WootCvrdt → FileContext
get_new_file_context local_path meta_state = record {
  local_path = local_path;
  meta_state = meta_state;
  is_state_tracked = false;
}

unfoldable pub track_state : FileContext → FileContext
track_state fc = record fc { is_state_tracked = true }

-- The flag is reset whether or not the poller stops well.
unfoldable pub untrack_state : FileContext → FileContext
untrack_state fc = record fc { is_state_tracked = false }

-- `UpdateState` of a context
unfoldable pub update_context :
    ℕ → FileContext → CvrdtState → Outcome (FileContext × Option SiteError)
update_context fuel fc state =
    update_state fuel fc.meta_state state >>= λ (w, e). ret (record fc { meta_state = w }, e)

unfoldable pub get_state_copy : FileContext → FileContextInfo
get_state_copy fc = record {
  local_path = fc.local_path;
  is_newly_created = false;
  read_only_state = clone (get_state fc.meta_state);
}

pub data RegistryError (E : Type 0) : Type 0 where
  file_ctx_not_found : RegistryError E
  file_system : E → RegistryError E
  poller_error : Text → E → RegistryError E
  state_error : SiteError → RegistryError E

-- `FileRegistry`: `site_id` is what the supplier of new documents was made with.
pub record FileRegistry : Type 0 where
  pub local_domain_prefix : Text
  pub site_id : Text
  pub file_contexts : Map Text FileContext

-- `CreateNewWootFileRegistry`
unfoldable pub create_new_woot_file_registry : Text → Text → FileRegistry
create_new_woot_file_registry site_id domain_local_prefix = record {
  local_domain_prefix = domain_local_prefix;
  site_id = site_id;
  file_contexts = [];
}

unfoldable pub get_file_ctx :
    {E : Type 0} → FileRegistry → Text → Result (RegistryError E) FileContext
get_file_ctx fr file_name = elim (lookup file_name fr.file_contexts) [
  | none ↦ err file_ctx_not_found
  | some ctx ↦ ok ctx
]

-- `createFileCtx`: `failed` is the error of making the directory, making the file or opening it.
unfoldable pub create_file_ctx :
    {E : Type 0} → Option E → FileRegistry → Text → Result (RegistryError E) FileRegistry
create_file_ctx failed fr file_name = elim failed [
  | some e ↦ err (file_system e)
  | none ↦ ok (record fr {
    file_contexts =
        insert file_name
          (track_state (get_new_file_context file_name (new_woot_cvrdt_with_view fr.site_id)))
          fr.file_contexts;
  })
]

unfoldable pub put_context : FileRegistry → Text → FileContext → FileRegistry
put_context fr file_name fc = record fr { file_contexts = insert file_name fc fr.file_contexts }

-- The second half of `UpdateFileCtx`, on the context that is there or was made.
unfoldable pub update_found :
    {E : Type 0}
    → ℕ
    → FileRegistry
    → FileContextInfo
    → Bool
    → FileContext
    → Outcome (FileRegistry × Result (RegistryError E) FileContextInfo)
update_found fuel fr info newly_created ctx =
    update_context fuel ctx info.read_only_state >>= λ (ctx', e). ret (
      put_context fr info.local_path ctx',
      elim e [
        | some failed ↦ err (state_error failed)
        | none ↦ ok (record (get_state_copy ctx') { is_newly_created = newly_created })
      ],
    )

-- `UpdateFileCtx`
unfoldable pub update_file_ctx :
    {E : Type 0}
    → ℕ
    → Option E
    → FileRegistry
    → FileContextInfo
    → Outcome (FileRegistry × Result (RegistryError E) FileContextInfo)
update_file_ctx fuel failed fr info = elim (lookup info.local_path fr.file_contexts) [
  | some ctx ↦ update_found fuel fr info false ctx
  | none ↦ elim (create_file_ctx failed fr info.local_path) [
    | err e ↦ ret (fr, err e)
    | ok fr' ↦ elim (lookup info.local_path fr'.file_contexts) [
      | none ↦ panic
      | some ctx ↦ update_found fuel fr' info true ctx
    ]
  ]
]

unfoldable pub get_file_ctx_info :
    {E : Type 0} → FileRegistry → Text → Result (RegistryError E) FileContextInfo
get_file_ctx_info fr file_name = elim (lookup file_name fr.file_contexts) [
  | none ↦ err file_ctx_not_found
  | some ctx ↦ ok (get_state_copy ctx)
]

-- `GetFileContent` takes a snapshot of the document, which marks it as up to date.
unfoldable pub get_file_content :
    {E : Type 0} → FileRegistry → Text → FileRegistry × Result (RegistryError E) Text
get_file_content fr file_name = elim (lookup file_name fr.file_contexts) [
  | none ↦ (fr, err file_ctx_not_found)
  | some ctx ↦
      let (w, content, up_to_date) = snapshot ctx.meta_state in
      (put_context fr file_name (record ctx { meta_state = w }), ok content)
]

-- `getAllFileCtxInfoLocked`
unfoldable pub get_all_file_ctx_info : Map Text FileContext → Map Text FileContextInfo
get_all_file_ctx_info [] = []
get_all_file_ctx_info ((name, ctx) ∷ ctxs) = (name, get_state_copy ctx) ∷ get_all_file_ctx_info ctxs

-- `removeFileCtx`: `stopped` is the poller's answer.
unfoldable pub remove_file_ctx :
    {E : Type 0} → (Text → Option E) → FileRegistry → Text → FileRegistry × Option E
remove_file_ctx stopped fr file_name = elim (lookup file_name fr.file_contexts) [
  | none ↦ (fr, none)
  | some ctx ↦ elim (stopped file_name) [
    | some e ↦ (put_context fr file_name (untrack_state ctx), some e)
    | none ↦ (record fr { file_contexts = remove file_name fr.file_contexts }, none)
  ]
]

-- `RemoveAllCtx`, with the list of errors that it joins.
unfoldable pub remove_each :
    {E : Type 0}
    → (Text → Option E)
    → FileRegistry
    → List Text
    → FileRegistry × List (RegistryError E)
remove_each stopped fr [] = (fr, [])
remove_each stopped fr (path ∷ paths) =
    let (fr', failed) = remove_file_ctx stopped fr path in
    let (fr'', errors) = remove_each stopped fr' paths in
    (fr'', elim failed [ none ↦ errors | some e ↦ poller_error path e ∷ errors ])

unfoldable pub remove_all_ctx :
    {E : Type 0} → (Text → Option E) → FileRegistry → FileRegistry × List (RegistryError E)
remove_all_ctx stopped fr = remove_each stopped fr (keys (get_all_file_ctx_info fr.file_contexts))

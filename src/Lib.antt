-- ===== src/Lib.antt =====
-- The client side stores of papercrate: what the web frontend (frontend/src) keeps of the documents,
-- folders, tags and correspondents of a tenant, of the session and of the selection, and how it
-- changes them.
--
-- A store is a class with a map from identifiers to objects. It takes in what the API answers
-- (`ingest`), fetches what is missing (`ensure`, `ensureAll`, `ensureTree`), changes what it holds once
-- the API has taken a mutation, and tells its listeners. `DocumentsManager` hands the tags and
-- correspondents that come embedded in a document to their managers and keeps their identifiers;
-- `FoldersManager` keeps the tree of the sidebar beside its map.
--
-- Below the stores is the client of the API, whose requests share one refresh of the access token; the
-- desktop beside them lays the documents of a view out as cards and saves where they lie.
--
-- Which file is about which code:
-- - Base, with Base/Tests, Base/Lists, Base/Keys: the shared names, Boolean tests, lists, and lists of
--   identifiers as sets and as arrays.
-- - Dict: JavaScript's `Map` in insertion order. Js: its values, `Object.is`, truthiness, spread, and
--   `shallowEqual` of frontend/src/utils/shallowEqual.ts. Json: what `JSON.stringify` prints, as far as
--   two prints are compared. Api: how a call of the API comes back.
-- - Emitter: the private `emit` and `subscribe` that DocumentsManager.ts and FoldersManager.ts share.
-- - Catalog: frontend/src/lib/assets/TagManager.ts and CorrespondentManager.ts, one code over two types.
--   Catalog/Laws is about `ingest`, Catalog/Fetch about the fetch of the whole list.
-- - Documents: frontend/src/documents/DocumentsManager.ts up to `list`, and Documents/Mutations its
--   mutations. Documents/Identity has the lemmas on one round of `ingest`, Documents/Ingest the
--   invariant of the store, Documents/Rewrite what `update` leaves, Documents/Labels and
--   Documents/Bulk the mutations, Documents/Requests the runs of `ensure` beside its environment.
-- - Tree: the nodes that FoldersManager.ts keeps, `findNode` and `removeNodeFromParent`, and
--   `flattenFolderTree` of frontend/src/app/workspaceUtils.ts. Tree/Laws and Tree/Moves count
--   identifiers. Folders: `FoldersManager` itself; Folders/Moving is about moves, Folders/Loading about
--   the map, added, deleted and loaded folders.
-- - Session: the reducer of frontend/src/lib/store/appState.tsx, with its invariants in Session/Laws.
-- - EntryKey: frontend/src/app/entryKey.ts. Selection and Selection/Apply: the hook of
--   frontend/src/app/useDocumentSelection.ts; Selection/Order is about the order of the keys,
--   Selection/Apply/Laws about clicks.
-- - Selection/Navigation: the keyboard on the entries, frontend/src/documents/logic/
--   useDocumentsNavigation.ts, with Navigation/Laws and Navigation/Returning.
-- - Breadcrumbs: frontend/src/documents/logic/breadcrumbs.ts, with the bound and the order of the
--   trail in Breadcrumbs/Laws.
-- - Text: the methods of `String` that the other parts use. Catalog/Payload: the payloads that the
--   managers of tags and correspondents make of what is typed.
-- - Uploads: frontend/src/documents/features/upload/useDocumentUploads.ts, Uploads/Overlay its
--   useFileDrop.ts. Uploads/Items has the items of the queue and the upload of one file, Uploads/Files
--   the files of a drop, Uploads/Settling, Uploads/Steps and Uploads/Queue what becomes of a batch,
--   Uploads/Paths the folder paths that it asks for.
-- - Panels: frontend/src/app/PanelManagerContext.tsx with frontend/src/constants/layout.ts.
-- - Drops: frontend/src/documents/features/folders/useFolderTree.ts, the nodes that are shown and the
--   drops that are refused; Drops/Walk is about the walk up from a target, Drops/View about the nodes
--   against the tree. Drops/Actions: useFolderTreeActions.ts beside it, over Drops and Folders.
-- - NewDocuments: frontend/src/lib/context/NewDocumentsContext.tsx.
-- - TagTransfer: frontend/src/documents/features/tagging/tagTransfer.ts.
-- - AssetCache: frontend/src/lib/assets/AssetManager.ts.
-- - Client: frontend/src/lib/api/apiClient.ts, the interceptor of answers and the refresh of the access
--   token; Client/Answers what it makes of data. Client/Accounts has the invariant, Client/Progress the
--   requests counted, Client/Draining how they end.
-- - Desktop: frontend/src/desktop. Desktop/Numbers is the interface to the numbers and Desktop/Records
--   that to the database of logic/db.ts. Desktop/Cards, Desktop/Geometry, Desktop/Store with Placing and
--   Front, and Desktop/Layout are logic/LayoutSystem.ts and utils/layoutUtils.ts; Desktop/Sync is the
--   effect of components/DesktopWorkspace.tsx that keeps the cards of the documents. Desktop/Runs puts
--   the operations in any order, as their callers may: it models no code but what `snapTo` and the
--   physics do to a card; Desktop/Stacking and Desktop/Kept have the invariants of the runs,
--   Store/Order, Store/Fronting and Desktop/Visible the cards that are brought to the front,
--   Desktop/Resizing the container's size, Desktop/Saving what is saved and loaded. Desktop/Samples has
--   numbers and a database at which the theorems are tried.
-- - The files called Tests (but Base/Tests) run the code on small stores.
--
-- How the code is read: an asynchronous method of a store is split where it waits, into what it does
-- when called and what it does with the answer, so that other steps can come between the two, where a
-- theorem is about such steps. A batch of uploads, a drop on a folder, and the mutations and actions that
-- are given with their answer are one step each, with no other in between. An object is its own
-- properties in order, with the identity that `Object.is` compares where it stands in a property; a
-- number is the bit pattern of its double; identifiers are strings (frontend/src/types/identifiers.ts).
-- An array that the code makes takes the next identity from a counter in the store. The nodes of the
-- folder tree are changed in place by the program and are no other store's, so a method gives the
-- changed tree; the entries of the map of folders do not have the reference to the array of children
-- that the code copies along. Widths of panels are whole pixels, times whole milliseconds. All loops are
-- over lists or trees and need no fuel, but that of Breadcrumbs, which the source holds to 64 rounds, and
-- that over the places for a new card, which it holds to 20: these are their fuel; that of Drops, whose
-- fuel is a round more than there are nodes, of which it visits none twice; and the digits of a file's
-- size, which are no more than the size and one.
--
-- The desktop computes with floating-point numbers, which are a parameter with the operations that the
-- code uses; where a theorem needs a law of theirs, it is one of numbers that are no NaN, the two zeros
-- being one. The indices and the page counts of cards are natural numbers. The database is a parameter
-- whose laws are those of an object store with a key; a transaction succeeds, or fails, changes
-- nothing and rejects, which `upsertLayoutRecords` catches. A card object has a number, which tells it from another card of the same document. In the
-- client a request is its number and the parts of its configuration that the interceptor reads; axios
-- is taken to send a configuration that it is called with as it is, and the steps that follow the
-- answer to a refresh are taken together. How long a request may go on is bounded by the work that is
-- left in the client, which every answer reduces.
--
-- Not modelled: the network, React components, styles, the physics of dragged cards, pointer events, the
-- effects that write the session storage or CSS, and the backend, which is another program in another
-- language.
pub mod Base
pub mod Dict
pub mod Js
pub mod Json
pub mod Api
pub mod Emitter
pub mod Catalog
pub mod Documents
pub mod Tree
pub mod Folders
pub mod Session
pub mod EntryKey
pub mod Selection
pub mod Breadcrumbs
pub mod Text
pub mod Client
pub mod Desktop
pub mod Uploads
pub mod Panels
pub mod Drops
pub mod NewDocuments
pub mod TagTransfer
pub mod AssetCache

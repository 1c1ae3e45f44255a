-- ===== src/Lib.antt =====
-- Spade runs pipelines of geospatial processing blocks. This library is about the TypeScript of its
-- web client, `web_ui/`: how a pipeline document is edited, checked and prepared, how two blocks are
-- wired, and who can see what is stored; and of the library for block authors, `libs/typescript`.
--
-- A pipeline is a list of blocks; a block names the blocks it takes inputs from, bare or with an
-- output. The editor wires two blocks by their manifests. A submitted pipeline has its short codes
-- replaced by UUIDs, is validated, and is stored as a queued run, whose progress the worker reports.
--
-- Files:
--   Prelude, Dict       lists, tests, and the `Map` of JavaScript as an association list in the order
--                       of insertion.
--   Types               web_ui/utils/types.ts: InputRef, Block, Pipeline, PortDecl, BlockManifest.
--   Validate            web_ui/utils/validate.ts. Validate/Cycle is `findCycle`: the colours, the stack,
--                       and `dfs` as recursion on fuel, as deep as there are blocks, which is proved to
--                       suffice. Validate/Checks is `validatePipeline`, with one definition for each of
--                       its checks. Validate/Spec says what a valid pipeline is without any of that code.
--   Wiring              web_ui/utils/wiring.ts: `resolveConnection`, with the remaining ports as state.
--   ShortCodes          web_ui/utils/short_codes.ts: `resolveShortCodes`, with the map of its closure and
--                       the number of UUIDs drawn as state. The UUIDs are a parameter.
--   PipelineBuilder     web_ui/utils/pipeline.ts: the builder's blocks and metadata as state,
--                       `parseEdge` with the first block of the target's id, and `dedupeInputs` with its two sets.
--   Repositories        web_ui/server/db. Repositories/Database has what the repositories rely on in the
--                       database, as a record of statements and laws; Repositories/Database/InMemory
--                       fills it with lists. Repositories/Acl is the part that the repositories of runs,
--                       pipelines and data files write out alike; Runs, Pipelines, DataFiles and Blocks
--                       are the four repositories with their tables.
--   Api                 web_ui/server/api: Api/Submit is the handler of runs/index.post.ts, from the body
--                       of the request to the stored run, with `YAML` a parameter; Api/Callback is that of
--                       runs/[id]/index.patch.ts, with which a worker reports on a run.
--                       Api/Access has what the handlers of shared resources have in common; Api/Pipelines,
--                       Api/DataFiles, Api/Results and Api/Catalogue are the handlers of api/pipelines,
--                       api/uploads and api/data, api/runs, and api/blocks.
--   Flow                web_ui/composables/useFlow.ts: the store of the graph editor and its operations; Flow/Import
--                       is `yamlToNodes`, Flow/Export is `exportPipelineObject`, Flow/Commands a sequence of calls.
--                       Flow/Resolve is `resolveAndApply` of web_ui/utils/wiring.ts, Flow/Live is useMapContext.ts
--                       with useBlockCatalogue.ts.
--   BlockLibrary        libs/typescript/src: scanning.ts, the arguments of run.ts, and build.ts, over a record
--                       of what they call of the file system and of js-yaml. BlockLibrary/Made says what is made
--                       of a directory of inputs without any of that code.
--   MapContext          web_ui/utils/mapContext.ts: the sort of `computeMapContext` with its two maps, its queue
--                       and a round of fuel for each ready block and each counted one, which is proved to
--                       suffice; the stacks of open maps; `isBroadcastEdge` and `activeMapFor`.
--   Tests               the code at concrete inputs, and the theorems applied to them.
--
-- What is left out: the values of `args` (a type parameter); own names of the prototype of an
-- object and the order of integer-like keys, where the code uses an object as a map; the depth of
-- the call stack of JavaScript; the order in which a `select` returns rows; the refusal of a row
-- whose foreign key names no row, and what a deletion does to rows of other repositories; the
-- interleaving of requests within a handler. The times of `new Date()` and the values of `v7()` are
-- arguments. A request is that of a user who is logged in, its sizes are natural numbers, and its
-- YAML has the shape of a pipeline or a manifest; its body has the declared fields and no others, but
-- the body of pipelines/[id].put.ts, which goes to the database as it is, can set any column. The
-- signing of URLs and `decodeURIComponent` are parameters; the redirect to a signed URL and the streaming
-- of an archive are left out. The writes of components to the refs that the editor's store exposes,
-- the Vue components, the outputs of the TypeScript library for block authors, the libraries in other
-- languages and the Go services are not modelled.
pub mod Prelude
pub mod Dict
pub mod Types
pub mod Validate
pub mod Wiring
pub mod ShortCodes
pub mod PipelineBuilder
pub mod MapContext
pub mod Flow
pub mod BlockLibrary
pub mod Repositories
pub mod Api
pub mod Tests

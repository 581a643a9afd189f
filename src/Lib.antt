-- ===== src/Lib.antt =====
-- A model of mapget: map tiles, the keys and feature ids that name them, the stream that carries
-- them, the features of a layer, the cache, and the service that hands tile jobs to the workers of
-- data sources.
--
-- The parts and how they interact. A client gives the service requests (LayerTilesRequest), each a
-- list of tile ids of one layer of one map. The controller (Service::Controller) picks the next tile
-- for a free worker of a data source: it is served from the cache, left for later while another
-- worker has it, or made into a job. A worker fetches the layer of its job, enters it into the cache
-- and notifies the request. Layers and string pools travel as messages of a byte stream
-- (TileLayerStream), whose reader accepts any cutting of the bytes. A feature layer names its
-- features by ids that are checked against the compositions of their type, and finds them by an
-- index of hashes. Its geometries are points or views of each other, and a validity says on which part
-- of a feature's geometry an attribute holds. The data sources come from a file that the configuration service watches.
--
--   Base        names of the libraries, lists, texts (lists of byte codes), 64-bit integers, bits
--   Tile        libs/model/src/tileid.cpp: TileId
--   Version     libs/model/src/info.cpp: Version
--   Key         libs/model/src/layer.cpp: MapTileKey
--   IdPart      libs/model/src/info.cpp: IdPart, FeatureTypeInfo, LayerInfo::validFeatureId
--   IdHash      libs/model/src/featurelayer.cpp: stripOptionalIdParts, hashFeatureId
--   PrimaryId   libs/model/src/featurelayer.cpp: getPrimaryIdComposition and the checks of ids
--   FeatureId   libs/model/src/featureid.cpp: FeatureId
--   Features    libs/model/src/featurelayer.cpp: TileFeatureLayer, its features, ids and names
--   Point       libs/model/src/point.cpp: Point, over the floating point operations
--   Arena       the interface of simfil's arrays, and a concrete one
--   Geometry    libs/model/src/geometry.cpp, src/pointnode.cpp: Geometry, PointBufferNode,
--               LinearRingNode, and the parts of lines
--   Validity    libs/model/src/validity.cpp: Validity, its stream form, and its clone with that
--               of its geometry (src/featurelayer.cpp)
--   Relation    libs/model/src/relation.cpp: Relation, and the relations of a feature
--   FeatureNode  libs/model/src/feature.cpp: Feature as a node, FeaturePropertyView
--   SourceAddress  libs/model/src/featurelayer.cpp: the packing of source data addresses
--   Wire        the interfaces of bitsery and of simfil::StringPool, and a concrete codec
--   Stream      libs/model/src/stream.cpp: TileLayerStream
--   Layer       libs/model/src/layer.cpp: TileLayer in a stream
--   Writer      libs/model/src/stream.cpp: TileLayerStream::Writer
--   Cache       libs/service/src/cache.cpp: Cache on a store of blobs
--   MemCache    libs/service/src/memcache.cpp: MemCache
--   Request     libs/service/src/service.cpp: LayerTilesRequest
--   Source      libs/model/include/mapget/model/info.h: DataSourceInfo, as far as it is read
--   Registry    libs/service/src/service.cpp: the data sources of Service::Impl, Service::request
--   Locate      libs/service/src/locate.cpp: LocateRequest, LocateResponse; Service::locate
--   Config      libs/service/src/config.cpp: DataSourceConfigService
--   Controller  libs/service/src/service.cpp: Service::Controller, Service::Worker, Service::Impl
--
-- How state is modelled. A class is a record and a method a function on it; an exception is a value
-- (none, raised, throws). Function names follow the source in snake case. What runs under one mutex
-- is one function, and Controller.World.Step is the relation of all the steps that threads may take
-- in turn: starting a job, storing its layer, completing it, losing it to a callback that throws,
-- failing it, adding and aborting requests. Requests are shared objects, held in a store by number.
-- uint16_t, uint32_t and uint64_t are natural numbers with their wrap-around written out.
--
-- Bounds and fuel. Reader::read runs on the length of its buffer plus two, since every round but the
-- first and the last takes a header away, and Controller::nextJob on the number of tiles that are
-- left plus one, since a repeated round has served a tile; both are proved enough. The second loop of
-- idPartsMatchComposition does not end at an optional part, so its fuel is a parameter.
-- The id checks of a feature layer take the same fuel as a parameter; in the theorems on layers it
-- is any number, and one unit of it is proved enough where no composition has an optional part.
--
-- The loop that resolves a view of a geometry runs on the number of geometries, since views look
-- into earlier ones. Asserts are taken as compiled out.
--
-- Not modelled: the conversion of a position to grid coordinates, JSON, logging, condition variables,
-- the HTTP transport, the SQLite database, the Python binding, and, of the feature model on top of
-- simfil, the attributes and their layers, most of cloning, geometry for queries and queries.
-- Addresses are indices into a column, and capacities of geometries are such as an ArrayIndex holds.
-- The operations on floating point numbers with their conversions, simfil's arrays, string pools and
-- objects, the reading of a layer, bitsery's values, fmt's hexadecimal numbers, nlohmann's enum names,
-- YAML, SHA-256 and the content and times of files are parameters, with the documented behaviour that
-- the code relies on.
pub mod Arena
pub mod Base
pub mod Tile
pub mod Validity
pub mod Version
pub mod Key
pub mod IdPart
pub mod Geometry
pub mod IdHash
pub mod FeatureId
pub mod Point
pub mod PrimaryId
pub mod Features
pub mod FeatureNode
pub mod Relation
pub mod SourceAddress
pub mod Wire
pub mod Stream
pub mod Layer
pub mod Writer
pub mod Cache
pub mod MemCache
pub mod Request
pub mod Source
pub mod Registry
pub mod Locate
pub mod Controller
pub mod Config
